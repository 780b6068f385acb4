-- ===== src/Webhook/Sending.antt =====
-- internal/webhook/wechat.go, `Send`: the records that it posts.
use log_collector.Base.{
  ◌≡◌, ◌≢◌, ◌↔◌, refl, ap, inl, inr, Bool, true, false, not, any, none, some, List, [], ◌∷◌, ◌==◌,
  text_eq, All, Elem, Bool-cases, if◌then◌else◌, ==→≡, ≡→==,
}
use mathlib.Core.Option.{some-injective}
use log_collector.Base.Member.{any_sound, any_complete}
use log_collector.Base.Text.{Text, contains}
use log_collector.Model.{Record, Time}
use log_collector.Webhook.{first_matching_keyword, Client, content, message}

-- No keyword occurs in the text.
abbrev pub HasNone : Text → List Text → Type 0
HasNone body keywords = All (λ k. contains body k ≡ false) keywords

first_matching_keyword-HasNone :
    (body : Text) (ks : List Text)
    → All (λ k. k ≢ []) ks
    → (first_matching_keyword body ks ≡ []) ↔ HasNone body ks
unfolding first_matching_keyword
first_matching_keyword-HasNone body [] h = ((λ e. tt), (λ e. refl))
first_matching_keyword-HasNone body (k ∷ ks) (h, hs) =
    let (to, from) = first_matching_keyword-HasNone body ks hs in
    elim (Bool-cases (contains body k)) [
      | inl found ↦ ((λ e. absurd (h (rw found at e))), (λ (clean, rest). cc))
      | inr clean ↦ ((λ e. (clean, to (rw clean at e))), (λ (c, rest). rw clean (from rest)))
    ]

-- The outcome of the two tests.
choice :
    (enabled ignored : Bool) (c m : Text)
    → (if not enabled then none else if not ignored then none else some c) ≡ some m
    → (enabled ≡ true) × (ignored ≡ true) × (c ≡ m)
choice false ignored c m e = cc
choice true false c m e = cc
choice true true c m e = (refl, refl, some-injective _ _ e)

-- Send posts a message exactly for the records whose severity is configured and whose body holds
-- no ignored keyword, and it posts their content; ignored keywords are not empty.
pub message_iff :
    (c : Client) (now : Time) (r : Record) (m : Text)
    → All (λ k. k ≢ []) c.ignore_keywords
    → (message c now r ≡ some m) ↔ (
        Elem r.severity_text c.severity_levels
        × HasNone r.body c.ignore_keywords
        × (content c now r ≡ m))
unfolding message
message_iff c now r m h =
    let (to, from) = first_matching_keyword-HasNone r.body c.ignore_keywords h in
    (
      (λ e.
          let (enabled, ignored, same) =
            choice (any (λ level. level == r.severity_text) c.severity_levels)
              (first_matching_keyword r.body c.ignore_keywords == []) (content c now r) m e in
          (any_sound r.severity_text c.severity_levels enabled, to (==→≡ _ _ ignored), same)),
      (λ (enabled, clean, same).
          rw (any_complete r.severity_text c.severity_levels enabled, ≡→== (from clean))
            (ap some same)),
    )
