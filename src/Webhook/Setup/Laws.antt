-- ===== src/Webhook/Setup/Laws.antt =====
-- internal/webhook/wechat.go: `New` and `Send` for settings that `Validate` accepts.
use log_collector.Base.{
  ℕ, ◌≤◌, ◌<◌, ◌≡◌, ◌≢◌, ◌↔◌, refl, ap, sym, subst, ◌∙◌, inl, inr, true, false, not, ◌&&◌, ◌||◌,
  Option, none, some, some-injective, none-ne-some, List, [], ◌∷◌, ◌==◌, text_eq, map, All, Elem,
  here, there, length, if◌then◌else◌, Bool-cases, Option-cases, ltb, leb, ==→≡, ne_of_eq_false,
  arith,
}
use log_collector.Base.Int.{ℤ, pos, int_eq}
use log_collector.Base.Text.{Text, bytes}
use log_collector.Utf8.{runes}
use log_collector.Model.{Record, Time}
use log_collector.Config.{WebhookConfig}
use log_collector.Config.Validate.{validate_webhook, normalize, is_blank}
use log_collector.Config.Valid.{IsWebhook}
use log_collector.Config.Valid.Sections.{validate_webhook_iff}
use log_collector.Webhook.{Client, content, message}
use log_collector.Webhook.Sending.{HasNone, message_iff}
use log_collector.Webhook.Setup.{
  Url, Host, levels_of, new_client, Reply, unsent, unread, replied, SendError, not_decoded,
  not_accepted, check_reply, send,
}

-- A record whose severity is a configured level, in any letter case, and whose body holds no ignored
-- keyword.
abbrev pub IsWanted : WebhookConfig → Record → Type 0
IsWanted cfg r =
    ((level : Text) × Elem level cfg.severity_levels × (normalize level ≡ r.severity_text))
    × HasNone r.body cfg.ignore_keywords

-- A status of success, with the error code 0.
abbrev pub IsAcknowledged : Reply → Type 0
IsAcknowledged reply =
    (status : ℕ) × (reply ≡ replied status (some (pos 0))) × (200 ≤ status) × (status < 300)

map-Elem :
    (f : Text → Text) (x : Text) (xs : List Text)
    → Elem x (map f xs) ↔ ((y : Text) × Elem y xs × (f y ≡ x))
map-Elem f x [] = ((λ m. elim m [ ]), (λ (y, m, _). elim m [ ]))
map-Elem f x (y ∷ ys) =
    let (to, from) = map-Elem f x ys in
    (
      (λ m. elim m [
        | here e ↦ (y, here refl, sym e)
        | there n ↦ let (z, k, e) = to n in (z, there k, e)
      ]),
      (λ (z, m, e). elim m [ here s ↦ here (sym e ∙ ap f s) | there n ↦ there (from (z, n, e)) ]),
    )

levels_of_lem : (levels : List Text) → 0 < length levels → levels_of levels ≡ levels
unfolding levels_of
levels_of_lem [] h = absurd (omega arith)
levels_of_lem (l ∷ ls) h = refl

replied_code : {s t : ℕ} {b c : Option ℤ} → replied s b ≡ replied t c → (s ≡ t) × (b ≡ c)
replied_code e = (cc, cc)

decoded :
    (status : ℕ) (body : Option ℤ)
    → 200 ≤ status
    → status < 300
    → (elim body as (λ b. Option SendError) [
      | none ↦ some not_decoded
      | some code ↦ if code == pos 0 then none else some (not_accepted code)
    ]
        ≡ none)
      ↔ IsAcknowledged (replied status body)
decoded status none low high = (
  (λ e. absurd (none-ne-some _ (sym e))),
  (λ (s, e, _, _). let (_, f) = replied_code e in absurd (none-ne-some _ f)),
)
decoded status (some code) low high = elim (Bool-cases (code == pos 0)) [
  | inl zero ↦
      rw zero
        ((λ e. (status, ap (λ n. replied status (some n)) (==→≡ _ _ zero), low, high)), (λ a. refl))
  | inr other ↦ rw other (
    (λ e. absurd (none-ne-some _ (sym e))),
    (λ (s, e, _, _).
        let (_, f) = replied_code e in absurd (ne_of_eq_false other (some-injective _ _ f))),
  )
]

good_status : (s : ℕ) → (ltb s 200 || leb 300 s) ≡ false → (200 ≤ s) × (s < 300)
good_status s e = (ground arith, ground arith)

bad_status_lem : (s : ℕ) → (ltb s 200 || leb 300 s) ≡ true → 200 ≤ s → s < 300 → ⊥
bad_status_lem s e l h = ground arith

check_reply_iff : (reply : Reply) → (check_reply reply ≡ none) ↔ IsAcknowledged reply
unfolding check_reply
check_reply_iff unsent = ((λ e. cc), (λ (s, e, _, _). cc))
check_reply_iff unread = ((λ e. cc), (λ (s, e, _, _). cc))
check_reply_iff (replied status body) = elim (Bool-cases (ltb status 200 || leb 300 status)) [
  | inl bad ↦ rw bad (
    (λ e. absurd (none-ne-some _ (sym e))),
    (λ (s, e, low, high).
        let (same, _) = replied_code e in
        absurd (bad_status_lem s (subst (λ n. (ltb n 200 || leb 300 n) ≡ true) same bad) low high)),
  )
  | inr good ↦ rw good (let (low, high) = good_status status good in decoded status body low high)
]

new_client_keeps :
    (parse_url : Text → Option Url) (host : Host) (format_time : Time → Text) (cfg : WebhookConfig)
    (c : Client)
    → new_client parse_url host format_time cfg ≡ some c
    → (c.severity_levels ≡ map normalize (levels_of cfg.severity_levels))
      × (c.ignore_keywords ≡ cfg.ignore_keywords)
unfolding new_client
new_client_keeps parse_url host format_time cfg c made = elim (Option-cases (parse_url cfg.url)) [
  | inl bad ↦ absurd (none-ne-some _ (rw (bad, new_client) at made))
  | inr (url, e) ↦
      elim (Bool-cases (
        (not (url.scheme == bytes "http") && not (url.scheme == bytes "https"))
        || (url.host == []))) [
          | inl bad ↦ absurd (none-ne-some _ (rw (e, bad, new_client) at made))
          | inr good ↦
              let same = sym (some-injective _ _ (rw (e, good, new_client) at made)) in
              (ap (λ c. c.severity_levels) same, ap (λ c. c.ignore_keywords) same)
        ]
]

not_empty : (k : Text) → is_blank k ≡ false → k ≢ []
unfolding is_blank runes
not_empty k h e = let f : true ≡ false = subst (λ k. is_blank k ≡ false) e h in cc

All-not_empty : (ks : List Text) → All (λ k. is_blank k ≡ false) ks → All (λ k. k ≢ []) ks
All-not_empty [] h = tt
All-not_empty (k ∷ ks) (h, hs) = (not_empty k h, All-not_empty ks hs)

module _ (cfg : WebhookConfig) (c : Client) (now : Time) (r : Record) where
  message-IsWanted :
      (c.severity_levels ≡ map normalize (levels_of cfg.severity_levels))
      → (c.ignore_keywords ≡ cfg.ignore_keywords)
      → IsWebhook cfg
      → (m : Text) → (message c now r ≡ some m) ↔ (IsWanted cfg r × (content c now r ≡ m))
  message-IsWanted levels keywords (_, (_, (given, (_, (ignored, _))))) m =
      let kept : c.severity_levels ≡ map normalize cfg.severity_levels =
        levels ∙ ap (map normalize) (levels_of_lem cfg.severity_levels given) in
      let (to, from) =
        message_iff c now r m (
          subst (All (λ k. k ≢ [])) (sym keywords) (All-not_empty cfg.ignore_keywords ignored.0)) in
      let (split, join) = map-Elem normalize r.severity_text cfg.severity_levels in
      (
        (λ e.
            let (level, clean, same) = to e in
            (
              (
                split (subst (Elem r.severity_text) kept level),
                subst (HasNone r.body) keywords clean,
              ),
              same,
            )),
        (λ ((level, clean), same). from (
          subst (Elem r.severity_text) (sym kept) (join level),
          subst (HasNone r.body) (sym keywords) clean,
          same,
        )),
      )

  sent_iff :
      (post : Text → Reply)
      → ((m : Text) → (message c now r ≡ some m) ↔ (IsWanted cfg r × (content c now r ≡ m)))
      → (send c now post r ≡ none) ↔ (IsWanted cfg r → IsAcknowledged (post (content c now r)))
  unfolding send
  sent_iff post iff = elim (Option-cases (message c now r)) [
    | inl quiet ↦ (
      (λ e w. absurd (none-ne-some _ (sym quiet ∙ (iff (content c now r)).1 (w, refl)))),
      (λ h. rw (quiet, send) refl),
    )
    | inr (m, e) ↦
        let (wanted, same) = (iff m).0 e in
        let (to, from) = check_reply_iff (post m) in
        (
          (λ f w. subst (λ m. IsAcknowledged (post m)) (sym same) (to (rw (e, send) at f))),
          (λ h. rw (e, send) (from (subst (λ m. IsAcknowledged (post m)) same (h wanted)))),
        )
  ]

-- For settings that Validate accepts, and the client that New makes of them: Send posts a message
-- exactly for a record whose severity is a configured level, in any letter case, and whose body
-- holds no ignored keyword, and it posts its content; and Send returns nil exactly if each such
-- record is acknowledged, with a status of success and the error code 0.
pub send-new_client :
    (parse_url : Text → Option Url) (host : Host) (format_time : Time → Text) (cfg : WebhookConfig)
    (c : Client) (now : Time) (post : Text → Reply) (r : Record)
    → validate_webhook cfg ≡ none
    → new_client parse_url host format_time cfg ≡ some c
    → ((m : Text) → (message c now r ≡ some m) ↔ (IsWanted cfg r × (content c now r ≡ m)))
      × ((send c now post r ≡ none) ↔ (IsWanted cfg r → IsAcknowledged (post (content c now r))))
send-new_client parse_url host format_time cfg c now post r valid made =
    let (levels, keywords) = new_client_keeps parse_url host format_time cfg c made in
    let posted =
      message-IsWanted cfg c now r levels keywords ((validate_webhook_iff cfg).0 valid) in
    (posted, sent_iff cfg c now r post posted)
