-- ===== src/Orders/Outbox/Workers/Exclusion.antt =====
-- Leased and published rows of the outbox (apps/orders/outbox.py) under the steps of several
-- processes.
use swarmscope.Base.{
  ℕ, ◌<◌, ◌≡◌, refl, sym, ap, ◌∙◌, ◌≢◌, Bool, true, false, none, some, arith, Bool-cases, find_row,
  find_row-update_where, find_row_of_In, IsKeyed, some_inj, ==→eq, ◌==◌, In-find_row, All-In, holds,
  has_key, find_row_of_absent, key_of_find_row, subst, inl, inr, update_where,
}
use swarmscope.Orders.Models.{OutboxEvent, IsAdmitted, outbox_accepts}
use swarmscope.Orders.Outbox.Database.{Engine, eligible}
use swarmscope.Orders.Outbox.{
  OutboxPublisher, Outbox, has_id, owned_by, lease_row, publish_row, retry_row, due_event_statement,
}
use swarmscope.Orders.Outbox.Changes.{
  Change, unchanged, leased, marked, retried, event_key, claim_next_event-Change,
  mark_published-Change, release_for_retry-Change,
}
use swarmscope.Orders.Outbox.Workers.{
  System, Step, claim, deliver, settle_published, settle_failed, crash, place, Reach, here, next,
}
use swarmscope.Orders.Outbox.Workers.Soundness.{IsSound, Reach-IsSound}

-- the time that a claim reads
abbrev pub ReadsTime :
    {engine : Engine} {self : OutboxPublisher} {s t : System} → Step engine self s t → ℕ → Type 0
ReadsTime (claim tx locked _) now = tx.clock ≡ some now
ReadsTime (deliver _ _ _) now = ⊥
ReadsTime (settle_published _ _ _) now = ⊥
ReadsTime (settle_failed _ _ _ _) now = ⊥
ReadsTime crash now = ⊥
ReadsTime (place _ _ _ _) now = ⊥

-- A row is safe from a process if it cannot be claimed at a time that the process reads, and is
-- not leased to it.
record IsSafe (read : ℕ → Type 0) (self : OutboxPublisher) (r : OutboxEvent) : Type 0 where
  not_due :
      (now : ℕ) (locked : ℕ → Bool) → read now → eligible (due_event_statement now) locked r ≢ true
  not_owned : holds (λ o. o == self.owner) r.lease_owner ≡ false

module _ (p : OutboxEvent → Bool) (f : OutboxEvent → OutboxEvent) where
  untouched :
      ((e : OutboxEvent) → event_key (f e) ≡ event_key e)
      → (k : ℕ) (rows : Outbox) (r : OutboxEvent) → find_row event_key k rows ≡ some r
      → p r ≡ false
      → find_row event_key k (update_where p f rows) ≡ some r
  untouched same k rows r found miss =
      rw (find_row-update_where event_key p f same k rows, found, miss) refl

module _ {read may : ℕ → Type 0} {self : OutboxPublisher} {rows rows' : Outbox} where
  Change-keeps :
      (k : ℕ) (r : OutboxEvent)
      → IsKeyed event_key rows
      → find_row event_key k rows ≡ some r
      → IsSafe read self r
      → Change read may self rows rows'
      → find_row event_key k rows' ≡ some r
  unfolding lease_row publish_row retry_row
  Change-keeps k r keyed found safe (unchanged e) = rw e found
  Change-keeps k r keyed found safe (leased now locked e at t up) =
      ap (find_row event_key k) up
      ∙ untouched (has_id e.event_id) (lease_row self now) (λ x. refl) k rows r found
          (elim (Bool-cases (has_id e.event_id r)) [
            | inl same ↦
                let kr : r.event_id ≡ k = key_of_find_row event_key k r rows found in
                let er : e ≡ r = some_inj (
                  sym (find_row_of_In event_key e rows keyed t.member)
                  ∙ ap (λ j. find_row event_key j rows) (sym (==→eq _ _ same) ∙ kr)
                  ∙ found) in
                absurd (safe.not_due now locked at (rw er at t.due))
            | inr other ↦ other
          ])
  Change-keeps k r keyed found safe (marked now j _ up) =
      ap (find_row event_key k) up
      ∙ untouched (owned_by self.owner j) (publish_row now) (λ x. refl) k rows r found
          (ground (arith, safe.not_owned))
  Change-keeps k r keyed found safe (retried next_at j error _ up) =
      ap (find_row event_key k) up
      ∙ untouched (owned_by self.owner j) (retry_row next_at error) (λ x. refl) k rows r found
          (ground (arith, safe.not_owned))

-- A row that is safe from the acting process is found as it was.
Step-keeps :
    {engine : Engine} {self : OutboxPublisher} {s t : System} (k : ℕ) (r : OutboxEvent)
    → (st : Step engine self s t) → IsKeyed event_key s.outbox
    → find_row event_key k s.outbox ≡ some r
    → IsSafe (ReadsTime st) self r
    → find_row event_key k t.outbox ≡ some r
unfolding find_row
Step-keeps {engine} {self} {s} k r (claim tx locked e) keyed found safe =
    Change-keeps k r keyed found safe
      (claim_next_event-Change (λ _. ⊥) self tx s.outbox engine locked)
Step-keeps k r (deliver c d e) keyed found safe = found
Step-keeps {self = self} {s = s} k r (settle_published c tx e) keyed found safe =
    Change-keeps k r keyed found safe (mark_published-Change (λ _. ⊥) self tx s.outbox c)
Step-keeps {self = self} {s = s} k r (settle_failed c error tx e) keyed found safe =
    Change-keeps k r keyed found safe
      (release_for_retry-Change (λ _. ⊥) (λ _. ⊥) self tx s.outbox c error)
Step-keeps k r crash keyed found safe = found
Step-keeps {s = s} k r (place e fine unsent new_key) keyed found safe =
    elim (Bool-cases (e.event_id == k)) [
      | inl same ↦
          let gone : find_row event_key k s.outbox ≡ none =
            find_row_of_absent event_key k s.outbox
              (subst (λ j. has_key event_key j s.outbox ≡ false) (==→eq _ _ same) new_key) in
          absurd (cc)
      | inr other ↦ rw other found
    ]

-- In a sound system, a row with a lease of `owner` stays as it is in every step of a process with
-- another owner name, whatever that process does, if the times that it reads lie before the
-- lease's expiry.
pub lease_excludes :
    {engine : Engine} {other : OutboxPublisher} {s t : System} (k owner expiry : ℕ)
    (r : OutboxEvent)
    → (st : Step engine other s t) → IsSound s
    → find_row event_key k s.outbox ≡ some r
    → r.lease_owner ≡ some owner
    → r.lease_expires_at ≡ some expiry
    → other.owner ≢ owner
    → ((now : ℕ) → ReadsTime st now → now < expiry)
    → find_row event_key k t.outbox ≡ some r
unfolding due_event_statement
lease_excludes k owner expiry r st sound found mine until ne early =
    Step-keeps k r st sound.keyed found (record {
      not_due = λ now locked at due. ground (arith, early now at);
      not_owned = ground arith;
    })

-- A published row is final: from a sound system no steps of any processes change it.
pub published_is_final :
    {engine : Engine} {s t : System} (k at : ℕ) (r : OutboxEvent)
    → IsSound s
    → Reach engine s t
    → find_row event_key k s.outbox ≡ some r
    → r.published_at ≡ some at
    → find_row event_key k t.outbox ≡ some r
unfolding due_event_statement outbox_accepts
published_is_final k at r sound here found done = found
published_is_final {s = s} k at r sound (next {t = t} self reached st) found done =
    let found' = published_is_final k at r sound reached found done in
    let now_sound = Reach-IsSound sound reached in
    let fine : IsAdmitted r =
      All-In IsAdmitted r t.outbox now_sound.admitted (In-find_row event_key k r t.outbox found') in
    Step-keeps k r st now_sound.keyed found' (record {
      not_due = λ now locked _ due. ground (arith, fine);
      not_owned = ground (arith, fine);
    })
