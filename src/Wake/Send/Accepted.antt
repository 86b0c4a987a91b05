-- ===== src/Wake/Send/Accepted.antt =====
-- Which wakes the gateway accepts in the retry loop of one wake.
use mathlib.Core.List.{append_assoc, append-nil}
use subspace_daemon.Base.{
  List, Option, Option-cases, Result-cases, String, [], ap, arith, err, inl, inr, none, ok, refl,
  some, sym, ℕ, ◌++◌, ◌∙◌, ◌∷◌, ◌≡◌,
}
use subspace_daemon.HardFailure.{HardFailureEvent}
use subspace_daemon.Runtime.Retry.{Jitter}
use subspace_daemon.Runtime.Store.{RetryConfig}
use subspace_daemon.Storage.Schema.{StorageError}
use subspace_daemon.Storage.Tables.{Database, DeliveryTicket}
use subspace_daemon.Storage.Store.{DeliveryStore, mark_delivery_attempted}
use subspace_daemon.Wake.Send.{
  Chat, Reply, accepted, expired, refused, refused_last, Attempt, Outcome, retrying, fails, Wake,
  stop, on_ticket, note_refusal, next_backoff, end_attempt, make_attempt, send_loop,
}

-- a list with some of the elements left out
pub data Within {ℓ} {A : Type ℓ} : List A → List A → Type ℓ where
  done : Within [] []
  skip : {x : A} {xs ys : List A} → Within xs ys → Within xs (x ∷ ys)
  keep : {x : A} {xs ys : List A} → Within xs ys → Within (x ∷ xs) (x ∷ ys)

pub nothing-Within {ℓ} : {A : Type ℓ} (ys : List A) → Within [] ys
nothing-Within [] = done
nothing-Within (y ∷ ys) = skip (nothing-Within ys)

-- The chats that the gateway accepted, in their order.
unfoldable pub accepted_chats : List (Chat × Reply) → List Chat
accepted_chats [] = []
accepted_chats ((c, accepted) ∷ rest) = c ∷ accepted_chats rest
accepted_chats ((c, expired) ∷ rest) = accepted_chats rest
accepted_chats ((c, refused m) ∷ rest) = accepted_chats rest
accepted_chats ((c, refused_last m) ∷ rest) = accepted_chats rest

pub accepted_chats-append :
    (xs ys : List (Chat × Reply))
    → accepted_chats (xs ++ ys) ≡ accepted_chats xs ++ accepted_chats ys
unfolding accepted_chats
accepted_chats-append [] ys = refl
accepted_chats-append ((c, accepted) ∷ xs) ys = cc (accepted_chats-append xs ys)
accepted_chats-append ((c, expired) ∷ xs) ys = accepted_chats-append xs ys
accepted_chats-append ((c, refused m) ∷ xs) ys = accepted_chats-append xs ys
accepted_chats-append ((c, refused_last m) ∷ xs) ys = accepted_chats-append xs ys

-- The chats that were accepted between two states are some of those.
abbrev pub Adds : {F : Type 0} → Wake F → Wake F → List Chat → Type 0
Adds before after some_of =
    (fresh : List Chat) × (accepted_chats after.sent ≡ accepted_chats before.sent ++ fresh)
    × Within fresh some_of

pub Adds-nothing :
    {F : Type 0} (before after : Wake F) (some_of : List Chat)
    → accepted_chats after.sent ≡ accepted_chats before.sent
    → Adds before after some_of
Adds-nothing before after some_of h =
    ([], h ∙ sym (append-nil (accepted_chats before.sent)), nothing-Within some_of)

pub Adds-one :
    {F : Type 0} (before after : Wake F) (chat : Chat)
    → after.sent ≡ before.sent ++ ((chat, accepted) ∷ [])
    → Adds before after (chat ∷ [])
unfolding accepted_chats
Adds-one before after chat h = (
  chat ∷ [],
  ap accepted_chats h ∙ accepted_chats-append before.sent ((chat, accepted) ∷ []),
  keep done,
)

Within-append {ℓ} :
    {A : Type ℓ} {c : A} {xs ys zs : List A}
    → Within xs (c ∷ [])
    → Within ys zs
    → Within (xs ++ ys) (c ∷ zs)
Within-append (skip done) more = skip more
Within-append (keep done) more = keep more

pub Adds-then :
    {F : Type 0} (before between after : Wake F) (chat : Chat) (chats : List Chat)
    → Adds before between (chat ∷ [])
    → Adds between after chats
    → Adds before after (chat ∷ chats)
Adds-then before between after chat chats one more = (
  one.0 ++ more.0,
  more.1 ∙ ap (λ xs. xs ++ more.0) one.1 ∙ append_assoc (accepted_chats before.sent) one.0 more.0,
  Within-append one.2 more.2,
)

pub Adds-skip :
    {F : Type 0} (before after : Wake F) (chat : Chat) (chats : List Chat)
    → Adds before after chats
    → Adds before after (chat ∷ chats)
Adds-skip before after chat chats more = (more.0, more.1, skip more.2)

Within-weaken {ℓ} :
    {A : Type ℓ} {c : A} {xs : List A} (zs : List A) → Within xs (c ∷ []) → Within xs (c ∷ zs)
Within-weaken zs (skip done) = skip (nothing-Within zs)
Within-weaken zs (keep done) = keep (nothing-Within zs)

pub Adds-weaken :
    {F : Type 0} (before after : Wake F) (chat : Chat) (chats : List Chat)
    → Adds before after (chat ∷ [])
    → Adds before after (chat ∷ chats)
Adds-weaken before after chat chats one = (one.0, one.1, Within-weaken chats one.2)

module _ {F R : Type 0} (j : Jitter R) (retry : RetryConfig R) where
  Adds-other :
      (before after : Wake F) (chat : Chat) (reply : Reply)
      → accepted_chats ((chat, reply) ∷ []) ≡ []
      → after.sent ≡ before.sent ++ ((chat, reply) ∷ [])
      → accepted_chats after.sent ≡ accepted_chats before.sent
  Adds-other before after chat reply none_added h =
      ap accepted_chats h
      ∙ accepted_chats-append before.sent ((chat, reply) ∷ [])
      ∙ ap (λ xs. accepted_chats before.sent ++ xs) none_added
      ∙ append-nil (accepted_chats before.sent)

  end_attempt-sent :
      (ticket : Option (DeliveryStore × DeliveryTicket)) (chat : Chat)
      (event : String → HardFailureEvent) (backoff ended : ℕ) (reply : Reply) (d : Database F)
      (w : Wake F)
      → (end_attempt j retry ticket chat event backoff ended reply d w).0.sent
        ≡ w.sent ++ ((chat, reply) ∷ [])
  unfolding end_attempt note_refusal
  end_attempt-sent ticket chat event backoff ended expired d w = refl
  end_attempt-sent ticket chat event backoff ended accepted d w = refl
  end_attempt-sent ticket chat event backoff ended (refused m) d w = ground arith
  end_attempt-sent ticket chat event backoff ended (refused_last m) d w = ground arith

  end_attempt-goes_on :
      (ticket : Option (DeliveryStore × DeliveryTicket)) (chat : Chat)
      (event : String → HardFailureEvent) (backoff ended : ℕ) (reply : Reply) (d : Database F)
      (w : Wake F)
      → (end_attempt j retry ticket chat event backoff ended reply d w).1 ≡ none
      → accepted_chats ((chat, reply) ∷ []) ≡ []
  unfolding end_attempt accepted_chats
  end_attempt-goes_on ticket chat event backoff ended expired d w h = refl
  end_attempt-goes_on ticket chat event backoff ended accepted d w h = absurd (ground arith)
  end_attempt-goes_on ticket chat event backoff ended (refused m) d w h = refl
  end_attempt-goes_on ticket chat event backoff ended (refused_last m) d w h = refl

  reply-Adds :
      (before after : Wake F) (chat : Chat) (reply : Reply)
      → after.sent ≡ before.sent ++ ((chat, reply) ∷ [])
      → Adds before after (chat ∷ [])
  unfolding accepted_chats
  reply-Adds before after chat accepted h = Adds-one before after chat h
  reply-Adds before after chat expired h =
      Adds-nothing before after (chat ∷ []) (Adds-other before after chat expired refl h)
  reply-Adds before after chat (refused m) h =
      Adds-nothing before after (chat ∷ []) (Adds-other before after chat (refused m) refl h)
  reply-Adds before after chat (refused_last m) h =
      Adds-nothing before after (chat ∷ []) (Adds-other before after chat (refused_last m) refl h)

  make_attempt-marked :
      (ticket : Option (DeliveryStore × DeliveryTicket)) (chat : Chat)
      (event : String → HardFailureEvent) (backoff : ℕ) (a : Attempt) (w : Wake F) {u : Unit {0}}
      → (on_ticket (λ s. mark_delivery_attempted s a.at) ticket w.database).1 ≡ ok u
      → make_attempt j retry ticket chat event backoff a w
        ≡ end_attempt j retry ticket chat event backoff a.ended a.reply
            (on_ticket (λ s. mark_delivery_attempted s a.at) ticket w.database).0
            w
  unfolding make_attempt
  make_attempt-marked ticket chat event backoff a w h = rw (make_attempt, h) refl

  make_attempt-fails :
      (ticket : Option (DeliveryStore × DeliveryTicket)) (chat : Chat)
      (event : String → HardFailureEvent) (backoff : ℕ) (a : Attempt) (w : Wake F)
      {e : StorageError}
      → (on_ticket (λ s. mark_delivery_attempted s a.at) ticket w.database).1 ≡ err e
      → make_attempt j retry ticket chat event backoff a w ≡ (
        record w {
          database = (on_ticket (λ s. mark_delivery_attempted s a.at) ticket w.database).0;
        },
        some (fails e),
      )
  unfolding make_attempt
  make_attempt-fails ticket chat event backoff a w h = rw (make_attempt, h) refl

  pub send_loop_over :
      (ticket : Option (DeliveryStore × DeliveryTicket)) (chat : Chat)
      (event : String → HardFailureEvent) (backoff : ℕ) (w : Wake F)
      → send_loop j retry ticket chat event backoff [] w ≡ stop w retrying []
  unfolding send_loop
  send_loop_over ticket chat event backoff w = refl

  pub send_loop-goes_on :
      (ticket : Option (DeliveryStore × DeliveryTicket)) (chat : Chat)
      (event : String → HardFailureEvent) (backoff : ℕ) (a : Attempt) (more : List Attempt)
      (w : Wake F)
      → (make_attempt j retry ticket chat event backoff a w).1 ≡ none
      → send_loop j retry ticket chat event backoff (a ∷ more) w
        ≡ send_loop j retry ticket chat event
            (next_backoff j retry backoff)
            more
            (make_attempt j retry ticket chat event backoff a w).0
  unfolding send_loop
  send_loop-goes_on ticket chat event backoff a more w h = rw (send_loop, h) refl

  pub send_loop-ends :
      (ticket : Option (DeliveryStore × DeliveryTicket)) (chat : Chat)
      (event : String → HardFailureEvent) (backoff : ℕ) (a : Attempt) (more : List Attempt)
      (w : Wake F) {o : Outcome}
      → (make_attempt j retry ticket chat event backoff a w).1 ≡ some o
      → send_loop j retry ticket chat event backoff (a ∷ more) w
        ≡ stop (make_attempt j retry ticket chat event backoff a w).0 o more
  unfolding send_loop
  send_loop-ends ticket chat event backoff a more w h = rw (send_loop, h) refl

  make_attempt-Adds :
      (ticket : Option (DeliveryStore × DeliveryTicket)) (chat : Chat)
      (event : String → HardFailureEvent) (backoff : ℕ) (a : Attempt) (w : Wake F)
      → Adds w (make_attempt j retry ticket chat event backoff a w).0 (chat ∷ [])
        × ((make_attempt j retry ticket chat event backoff a w).1 ≡ none
            → accepted_chats (make_attempt j retry ticket chat event backoff a w).0.sent
              ≡ accepted_chats w.sent)
  make_attempt-Adds ticket chat event backoff a w =
      let marked = on_ticket (λ s. mark_delivery_attempted s a.at) ticket w.database in
      elim (Result-cases marked.1) [
        | inl (u, e) ↦
            let made = end_attempt j retry ticket chat event backoff a.ended a.reply marked.0 w in
            let sent = end_attempt-sent ticket chat event backoff a.ended a.reply marked.0 w in
            rw (make_attempt-marked ticket chat event backoff a w e) (
              reply-Adds w made.0 chat a.reply sent,
              λ h.
                  Adds-other w made.0 chat a.reply
                    (end_attempt-goes_on ticket chat event backoff a.ended a.reply marked.0 w h)
                    sent,
            )
        | inr (x, e) ↦
            rw (make_attempt-fails ticket chat event backoff a w e)
              (Adds-nothing w (record w { database = marked.0 }) (chat ∷ []) refl, λ h. refl)
      ]

  -- The loop has the gateway accept its chat at most once.
  pub send_loop-Adds :
      (ticket : Option (DeliveryStore × DeliveryTicket)) (chat : Chat)
      (event : String → HardFailureEvent) (backoff : ℕ) (attempts : List Attempt) (w : Wake F)
      → Adds w (send_loop j retry ticket chat event backoff attempts w).wake (chat ∷ [])
  send_loop-Adds ticket chat event backoff [] w =
      rw (send_loop_over ticket chat event backoff w) (Adds-nothing w w (chat ∷ []) refl)
  send_loop-Adds ticket chat event backoff (a ∷ more) w =
      let made = make_attempt j retry ticket chat event backoff a w in
      let adds = make_attempt-Adds ticket chat event backoff a w in
      elim (Option-cases made.1) [
        | inl goes_on ↦
            let later =
              send_loop-Adds ticket chat event (next_backoff j retry backoff) more made.0 in
            rw (send_loop-goes_on ticket chat event backoff a more w goes_on)
              (later.0, later.1 ∙ ap (λ xs. xs ++ later.0) (adds.1 goes_on), later.2)
        | inr (o, e) ↦ rw (send_loop-ends ticket chat event backoff a more w e) adds.0
      ]
