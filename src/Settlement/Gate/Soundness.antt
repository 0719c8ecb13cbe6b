-- ===== src/Settlement/Gate/Soundness.antt =====
-- Every call of the gate keeps its books, whoever makes it and in whatever order.
use pakta.Base.{
  ℕ, ◌+◌, ◌/◌, eq_refl, String, Bool, false, ◌≡◌, refl, Option, some, List, [], ◌∷◌, arith,
  All-append, ◌∙◌,
}
use pakta.Base.Int.{ℤ, pos, add_pos, sub_pos, ◌+ℤ◌, ◌-ℤ◌}
use pakta.Base.Map.{lookup, insert, lookup-insert}
use pakta.Base.Outcome.{Failure}
use pakta.Settlement.Chain.{
  OnChainStatus, OnChainPayable, PreparedRegistration, IssuerSignatureArg, same_status,
}
use pakta.Settlement.Gate.{
  NodeCrypto, FakeGate, get_payable, register_payable, settle, revoke_payable, expire_all,
  expire_batch, with_status,
}
use pakta.Settlement.Gate.Ledger.{
  IsPaid, IsSound, held, held_total, paid_total, held_total-insert, held_total-insert_new,
  All-IsPaid-insert, All-IsFresh, IsDistinct-append, paid_total-append,
}
use pakta.Settlement.Gate.Entries.{
  Entry, keep, open_new, close, pay, same, get_payable-Entry, settle-Entry, register_payable-Entry,
  revoke_payable-Entry, expire_one-Entry,
}

held_ready : (p : OnChainPayable) → p.status ≡ OnChainStatus.ready → held p ≡ p.amount
held_ready p h = ground arith

held_closed :
    (p : OnChainPayable) (status : OnChainStatus)
    → same_status status OnChainStatus.ready ≡ false
    → held (with_status status p) ≡ 0
held_closed p status h = rw h

-- The float that is held falls by the amount of a payable that leaves READY.
committed_closed :
    (g : FakeGate) (id : String) (p : OnChainPayable) (status : OnChainStatus)
    → lookup id g.payables ≡ some p
    → p.status ≡ OnChainStatus.ready
    → same_status status OnChainStatus.ready ≡ false
    → g.committed ≡ pos (held_total g.payables)
    → g.committed -ℤ pos p.amount ≡ pos (held_total (insert id (with_status status p) g.payables))
committed_closed g id p status found is_open other h = rw h (
    sub_pos _ _ _ (
      omega (
        arith,
        held_total-insert id (with_status status p) g.payables p found,
        held_ready p is_open,
        held_closed p status other,
      )))

-- An entry keeps the books sound.
pub Entry-IsSound : {g h : FakeGate} → Entry g h → IsSound g → IsSound h
Entry-IsSound {g} {h} (keep b) s = record {
  backed = rw (b.payables, b.payments) s.backed;
  once = rw b.payments s.once;
  committed = rw (b.committed, b.payables) s.committed;
}
Entry-IsSound {g} {h} (open_new id p new status ps co pa ba) s = record {
  backed = rw (ps, pa) (All-IsPaid-insert id p g.payables (rw new tt) g.payments s.backed);
  once = rw pa s.once;
  committed =
      rw (co, ps, s.committed)
        (add_pos _ _ _
          (omega (arith, held_total-insert_new id p g.payables new, held_ready p status)));
}
Entry-IsSound {g} {h} (close id p status found is_open other ps co pa ba) s = record {
  backed = rw (ps, pa) (All-IsPaid-insert id _ g.payables (rw found is_open) g.payments s.backed);
  once = rw pa s.once;
  committed = rw (co, ps) (committed_closed g id p status found is_open other s.committed);
}
Entry-IsSound {g} {h} (pay id p found is_open ps co pa ba) s = record {
  backed =
      rw (ps, pa)
        (All-append (IsPaid (insert id (with_status OnChainStatus.settled p) g.payables)) g.payments
          _ (All-IsPaid-insert id _ g.payables (rw found is_open) g.payments s.backed)
          (
            record {
              entry = with_status OnChainStatus.settled p;
              found = lookup-insert id id _ g.payables ∙ simp eq_refl;
              status = refl;
              recipient = refl;
              amount = refl;
            },
            tt,
          ));
  once = rw pa (
      IsDistinct-append g.payments _ s.once (
        All-IsFresh id (with_status OnChainStatus.settled p) g.payables (rw found is_open)
          g.payments s.backed));
  committed =
      rw (co, ps) (committed_closed g id p OnChainStatus.settled found is_open refl s.committed);
}

-- What the vault holds and what it has paid out.
abbrev pub assets : FakeGate → ℤ
assets g = g.balance +ℤ pos (paid_total g.payments)

regroup : (b : ℤ) (a n : ℕ) → b -ℤ pos a +ℤ pos (n + a) ≡ b +ℤ pos n
unfolding ◌+ℤ◌ ◌-ℤ◌
regroup b a n = ground arith

Entry-assets : {g h : FakeGate} → Entry g h → assets h ≡ assets g
Entry-assets (keep b) = rw (b.balance, b.payments)
Entry-assets (open_new id p new status ps co pa ba) = rw (ba, pa)
Entry-assets (close id p status found is_open other ps co pa ba) = rw (ba, pa)
Entry-assets {g} (pay id p found is_open ps co pa ba) =
    rw (ba, pa, paid_total-append g.payments) (regroup g.balance p.amount (paid_total g.payments))

-- A call of the gate by anyone, a fault that is injected, or the passing of time.
pub data Call : Type 0 where
  query : String → Call
  registers : PreparedRegistration → List IssuerSignatureArg → Call
  settles : String → Call
  revokes : String → Call
  expires : List String → Call
  faults : Option Failure → Option Failure → Bool → Bool → Call
  waits : ℕ → Call

module _ (crypto : NodeCrypto) where
  pub perform : FakeGate → Call → FakeGate
  perform g (query id) = (get_payable id g).1
  perform g (registers r sigs) = (register_payable crypto r sigs g).1
  perform g (settles id) = (settle crypto id g).1
  perform g (revokes id) = (revoke_payable crypto id g).1
  perform g (expires ids) = (expire_batch crypto ids g).1
  perform g (faults fr fs lr ls) = record g {
    fail_register = fr;
    fail_settle = fs;
    lose_register = lr;
    lose_settle = ls;
  }
  perform g (waits ms) = record g { clock = g.clock + ms }

  pub run : FakeGate → List Call → FakeGate
  run g [] = g
  run g (c ∷ cs) = run (perform g c) cs

  -- A property of the books that every entry keeps is kept by every call.
  module _ {ℓ} (P : FakeGate → Type ℓ) (entry : (g h : FakeGate) → Entry g h → P g → P h) where
    expire_all-keeps :
        (now : ℕ) (ids : List String) (g : FakeGate) → P g → P (expire_all crypto now ids g)
    unfolding expire_all
    expire_all-keeps now [] g h = h
    expire_all-keeps now (id ∷ ids) g h =
        expire_all-keeps now ids _ (entry _ _ (expire_one-Entry crypto now id g) h)

    pub expire_batch-keeps :
        (ids : List String) (g : FakeGate) → P g → P (expire_batch crypto ids g).1
    unfolding expire_batch
    expire_batch-keeps ids g h =
        entry _ _ (keep (same refl refl refl refl)) (expire_all-keeps (g.clock / 1000) ids g h)

    pub perform-keeps : (g : FakeGate) (c : Call) → P g → P (perform g c)
    unfolding perform
    perform-keeps g (query id) h = entry _ _ (get_payable-Entry crypto id g) h
    perform-keeps g (registers r sigs) h = entry _ _ (register_payable-Entry crypto r sigs g) h
    perform-keeps g (settles id) h = entry _ _ (settle-Entry crypto id g) h
    perform-keeps g (revokes id) h = entry _ _ (revoke_payable-Entry crypto id g) h
    perform-keeps g (expires ids) h = expire_batch-keeps ids g h
    perform-keeps g (faults fr fs lr ls) h = entry _ _ (keep (same refl refl refl refl)) h
    perform-keeps g (waits ms) h = entry _ _ (keep (same refl refl refl refl)) h

    pub run-keeps : (g : FakeGate) (cs : List Call) → P g → P (run g cs)
    unfolding run
    run-keeps g [] h = h
    run-keeps g (c ∷ cs) h = run-keeps (perform g c) cs (perform-keeps g c h)

  -- After any calls, by anyone and in any order, with faults and time between them: each payment
  -- made is the payment of a payable that is SETTLED, of its amount and to its recipient, no
  -- payable is paid twice, and the committed float is the sum of the READY amounts.
  pub run-IsSound : (g : FakeGate) (cs : List Call) → IsSound g → IsSound (run g cs)
  run-IsSound g cs s = run-keeps IsSound (λ a b e h. Entry-IsSound e h) g cs s

  -- No call makes or loses money: the balance and the payments made add up to the same.
  pub run-assets : (g : FakeGate) (cs : List Call) → assets (run g cs) ≡ assets g
  run-assets g cs = run-keeps (λ h. assets h ≡ assets g) (λ a b e h. Entry-assets e ∙ h) g cs refl
