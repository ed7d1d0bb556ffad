-- ===== src/Streams/Messages.antt =====
-- src/member-updates-notifier.ts: which requests `handleNotification` wakes, and with what cause.
use clawclub_server.Common.{
  ℕ, ◌≡◌, refl, sym, ap, ◌∙◌, ◌≢◌, ◌↔◌, ◌⊎◌, inl, inr, Bool, true, not, ◌&&◌, Option, none, some,
  List, [], ◌∷◌, ◌++◌, arith, any, filter, get_or, Bool-cases, Option-cases, Text, text_eq,
  text_eq_iff, codes,
}
use clawclub_server.Streams.Notifier.{
  StreamWakeupCause, Waiter, NotifierOptions, Notifier, WakeupFields, ChannelMessage, no_fields,
  message_fields, is_woken, wakeup_cause, handle_notification, is_none,
}
use clawclub_server.Streams.Notifier.WaitOutcome.{notified}
use clawclub_server.Streams.Lifecycle.{create_notifier, Run}
use clawclub_server.Streams.Waking.{answers, handle_notification_picks}

-- The text fields of a payload: those that its JSON has, and none where there is no text or no JSON.
unfoldable pub HasFields :
    (json_fields : Text → Option WakeupFields) (payload : Option Text) (fields : WakeupFields)
    → Type 0
HasFields json_fields payload fields =
    ((c : ℕ) × (text : Text) × (payload ≡ some (c ∷ text)) × (json_fields (c ∷ text) ≡ some fields))
    ⊎ ((fields ≡ no_fields)
        × ((payload ≡ none)
            ⊎ ((payload ≡ some [])
                ⊎ ((c : ℕ) × (text : Text) × (payload ≡ some (c ∷ text))
                    × (json_fields (c ∷ text) ≡ none)))))

-- A message is about the requests of its recipient and of its club, and about every request if it
-- names neither.
pub data IsAbout (fields : WakeupFields) (w : Waiter) : Type 0 where
  to_recipient : fields.recipient_member_id ≡ some w.recipient_member_id → IsAbout fields w
  to_club :
      (club_id : Text) (before behind : List Text)
      → fields.club_id ≡ some club_id
      → w.club_ids ≡ before ++ club_id ∷ behind
      → IsAbout fields w
  to_all : fields.club_id ≡ none → fields.recipient_member_id ≡ none → IsAbout fields w

-- The cause that a message has: none if it has no field, or else its fields, a missing kind as ''.
pub record IsCause (fields : WakeupFields) (cause : Option StreamWakeupCause) : Type 0 where
  pub no_cause : fields ≡ no_fields → cause ≡ none
  pub is_cause :
      (c : StreamWakeupCause)
      → cause ≡ some c
      → (c.club_id ≡ fields.club_id)
        × (c.recipient_member_id ≡ fields.recipient_member_id)
        × (c.kind ≡ get_or fields.kind [])
  pub has_cause : fields ≢ no_fields → cause ≢ none

HasFields-eq :
    (json_fields : Text → Option WakeupFields) (payload : Option Text) (fields : WakeupFields)
    → HasFields json_fields payload fields
    → message_fields json_fields payload ≡ fields
unfolding HasFields message_fields
HasFields-eq json_fields payload fields (inl (c, text, e, read)) = rw (e, read) refl
HasFields-eq json_fields payload fields (inr (e, inl missing)) = rw missing (sym e)
HasFields-eq json_fields payload fields (inr (e, inr (inl empty))) = rw empty (sym e)
HasFields-eq json_fields payload fields (inr (e, inr (inr (c, text, p, unread)))) =
    rw (p, unread) (sym e)

any_split :
    (a : Text) (texts : List Text)
    → any (λ t. text_eq t a) texts ≡ true
    → (before behind : List Text) × (texts ≡ before ++ a ∷ behind)
any_split a [] h = cc
any_split a (t ∷ texts) h = elim (Bool-cases (text_eq t a)) [
  | inl e ↦ ([], texts, ap (λ s. s ∷ texts) ((text_eq_iff t a).0 e))
  | inr e ↦
      let (before, behind, split) = any_split a texts (rw e at h) in
      (t ∷ before, behind, ap (λ s. t ∷ s) split)
]

any-append :
    (a : Text) (before behind : List Text) → any (λ t. text_eq t a) (before ++ a ∷ behind) ≡ true
any-append a [] behind = rw ((text_eq_iff a a).1 refl) refl
any-append a (t ∷ before) behind = ground (arith, any-append a before behind)

is_woken-IsAbout :
    (fields : WakeupFields) (w : Waiter) → is_woken fields w ≡ true → IsAbout fields w
unfolding is_woken
is_woken-IsAbout fields w h = elim (Option-cases fields.recipient_member_id) [
  | inr (r, named) ↦ elim (Bool-cases (text_eq w.recipient_member_id r)) [
    | inl same ↦ to_recipient (named ∙ ap some (sym ((text_eq_iff _ r).0 same)))
    | inr differs ↦ elim (Option-cases fields.club_id) [
      | inr (c, club) ↦
          let (before, behind, split) =
            any_split c w.club_ids (ground (arith, h, named, differs, club)) in
          to_club c before behind club split
      | inl no_club ↦ cc (rw (named, differs, no_club) at h)
    ]
  ]
  | inl unnamed ↦ elim (Option-cases fields.club_id) [
    | inr (c, club) ↦
        let (before, behind, split) = any_split c w.club_ids (ground (arith, h, unnamed, club)) in
        to_club c before behind club split
    | inl no_club ↦ to_all no_club unnamed
  ]
]

IsAbout-is_woken :
    (fields : WakeupFields) (w : Waiter) → IsAbout fields w → is_woken fields w ≡ true
unfolding is_woken
IsAbout-is_woken fields w (to_recipient e) =
    rw (e, (text_eq_iff w.recipient_member_id w.recipient_member_id).1 refl) refl
IsAbout-is_woken fields w (to_club c before behind e split) =
    ground (arith, e, ap (any (λ t. text_eq t c)) split, any-append c before behind)
IsAbout-is_woken fields w (to_all e e2) = rw (e, e2) refl

wakeup_cause-IsCause : (fields : WakeupFields) → IsCause fields (wakeup_cause fields)
unfolding wakeup_cause
wakeup_cause-IsCause fields = record {
  no_cause = λ e. rw e refl;
  is_cause = λ c e.
      elim (Bool-cases
        (is_none fields.kind && (is_none fields.club_id && is_none fields.recipient_member_id))) [
          | inl empty ↦ cc (rw empty at e)
          | inr there ↦ ground (arith, rw there at e)
        ];
  has_cause = λ given e. given (ground (arith, e));
}

-- A message of the channel `stream` settles the waiting requests that it is about, each once and in
-- the order in which they came, with its cause, and the others wait on. What it is about and its cause
-- are told by the fields of its payload.
pub handle_notification_wakes :
    {options : NotifierOptions} {json_fields : Text → Option WakeupFields} {n : Notifier}
    → Run options json_fields create_notifier n
    → (message : ChannelMessage) (fields : WakeupFields) → message.channel ≡ codes "stream"
    → HasFields json_fields message.payload fields
    → let after_it = handle_notification json_fields message n in
      (wakes : Waiter → Bool) × (cause : Option StreamWakeupCause) × ((w : Waiter)
        → (wakes w ≡ true) ↔ IsAbout fields w)
      × IsCause fields cause
      × (after_it.waiters ≡ filter (λ w. not (wakes w)) n.waiters)
      × (after_it.settled ≡ answers wakes (notified cause) n.waiters ++ n.settled)
handle_notification_wakes {json_fields} {n} run message fields e has_fields =
    let (waiters, settled) = handle_notification_picks run message e in
    let same = HasFields-eq json_fields message.payload fields has_fields in
    (
      is_woken fields,
      wakeup_cause fields,
      λ w. (is_woken-IsAbout fields w, IsAbout-is_woken fields w),
      wakeup_cause-IsCause fields,
      waiters ∙ ap (λ f. filter (λ w. not (is_woken f w)) n.waiters) same,
      settled
          ∙ ap (λ f. answers (is_woken f) (notified (wakeup_cause f)) n.waiters ++ n.settled) same,
    )
