-- ===== src/Engine/Executions/Emission.antt =====
-- What an emission leaves of a stream and of its correlation.
use ibkr_go.Prelude.{
  ℕ, ◌+◌, ◌≤◌, String, ◌≡◌, refl, sym, ap, ◌∙◌, subst, ◌⊎◌, inl, inr, Bool, true, false, not,
  Option, none, some, arith, ltb, leb, if_both, if_cases, length, All,
}
use ibkr_go.Errors.Tree.{Err}
use ibkr_go.Streams.Subscription.{
  slow, Subscription, LifecycleKind, cancel_from_actor, actor_cancel, record_cancel_cause,
  close_with_err, emit, emit_state, send_event, note_state,
}
use ibkr_go.Engine.Executions.Correlations.{
  CommissionReport, Entry, Correlation, find_entry, write_entry, overflow, clear,
}
use ibkr_go.Engine.Executions.{
  Execution, ExecutionUpdate, Executions, after_cancel, terminate, execution_update, fee_update,
  emit_update, emit_execution, deliver_fee,
}
use ibkr_go.Engine.Executions.Held.{
  held, Delivered, held-write, length-write, write-Delivered, find-Delivered,
}

-- A stream that the engine has is open.
abbrev pub Live : {X : Type 0} → Subscription X → Type 0
Live s = s.is_owned ≡ true → s.is_done ≡ false

pub record Bounded (n : ℕ) (c : Correlation) : Type 0 where
  pub limit_is : c.limit ≡ n
  pub pending_is : c.pending_limit ≡ n
  pub counted : c.pending_reports ≡ held c.by_exec_id
  pub reports : c.pending_reports ≤ n
  pub ids : length c.by_exec_id ≤ n

pub record Inv {X : Type 0} (n : ℕ) (s : Executions X) : Type 0 where
  pub bounded : Bounded n s.correlation
  pub delivered : All Delivered s.correlation.by_exec_id
  pub live : Live s.sub

pub clear-Bounded : {n : ℕ} {c : Correlation} → Bounded n c → Bounded n (clear c)
unfolding clear
clear-Bounded i = record {
  limit_is = i.limit_is;
  pending_is = i.pending_is;
  counted = refl;
  reports = omega arith;
  ids = omega arith;
}

module _ {T : Type 0} where
  pub cancel-is_owned :
      (a c : Option Err) (s : Subscription T) → (cancel_from_actor a c s).is_owned ≡ false
  unfolding cancel_from_actor actor_cancel close_with_err record_cancel_cause
  cancel-is_owned a none s = ground arith
  cancel-is_owned a (some e) s = ground arith

  note_state-Live :
      (kind : LifecycleKind) (seq : ℕ) (s : Subscription T) → Live s → Live (note_state kind seq s)
  unfolding note_state
  note_state-Live kind seq s live = ground (arith, live)

  pub emit_state-Live :
      (a : Option Err) (kind : LifecycleKind) (seq : ℕ) (s : Subscription T)
      → Live s
      → Live (emit_state a kind seq none s)
  unfolding emit_state send_event note_state
  emit_state-Live a kind seq s live =
      let noted = note_state kind seq s in
      let kept : Live noted = note_state-Live kind seq s live in
      if_both Live s.is_done live (
        if_both Live s.collect_snapshot kept (
          if_both (λ (p : Subscription T × Bool). Live p.0) (ltb (length noted.events) noted.buffer)
            kept (λ o. ground (arith, cancel-is_owned a slow noted, o))))

  pub cancel-Live : (a c : Option Err) (s : Subscription T) → Live (cancel_from_actor a c s)
  cancel-Live a c s o = ground (arith, cancel-is_owned a c s, o)

  -- An emission on a live stream of the engine succeeds, or the engine gives the stream up.
  emit-cases :
      (a : Option Err) (v : T) (s : Subscription T)
      → s.is_owned ≡ true
      → s.is_done ≡ false
      → (((emit a v s).1 ≡ true)
          × ((emit a v s).0.is_owned ≡ true)
          × ((emit a v s).0.is_done ≡ false))
        ⊎ (((emit a v s).1 ≡ false) × ((emit a v s).0.is_owned ≡ false))
  unfolding emit send_event
  emit-cases a v s owned live =
      let Cases = λ (p : Subscription T × Bool).
        ((p.1 ≡ true) × (p.0.is_owned ≡ true) × (p.0.is_done ≡ false))
        ⊎ ((p.1 ≡ false) × (p.0.is_owned ≡ false)) in
      if_cases Cases s.is_done (λ d. ground (arith, live, d))
        (λ o.
          if_both Cases s.collect_snapshot
            (inl (
              refl,
              if_both (λ (k : Subscription T). k.is_owned ≡ true) s.snapshot_closed owned owned,
              if_both (λ (k : Subscription T). k.is_done ≡ false) s.snapshot_closed live live,
            ))
            (if_both Cases (ltb (length s.events) s.buffer) (inl (refl, owned, live))
              (inr (refl, cancel-is_owned a slow s))))

pub write-Bounded :
    {n : ℕ} {c : Correlation} (id : String) (new old : Entry)
    → find_entry id c.by_exec_id ≡ some old
    → length new.pending ≡ length old.pending
    → Bounded n c
    → Bounded n (record c { by_exec_id = write_entry id new c.by_exec_id })
write-Bounded {n} {c} id new old found same b = record {
  limit_is = b.limit_is;
  pending_is = b.pending_is;
  counted = omega (arith, b.counted, held-write id new old c.by_exec_id found, same);
  reports = b.reports;
  ids = omega (arith, b.ids, length-write id new c.by_exec_id);
}

module _ {X : Type 0} where
  -- What an emission leaves: it succeeds and changes the stream alone, or ends the route.
  unfoldable pub Sent : ℕ → Correlation → Executions X × Bool → Type 0
  Sent n c p =
      ((p.1 ≡ true) × (p.0.correlation ≡ c) × (p.0.sub.is_owned ≡ true) × (p.0.sub.is_done ≡ false))
      ⊎ ((p.1 ≡ false) × Inv n p.0)

  -- What a fee leaves: the invariant, and the route if it was sent.
  unfoldable pub FeeSent : ℕ → Executions X × Bool → Type 0
  FeeSent n p = Inv n p.0 × ((p.1 ≡ false) ⊎ (p.0.sub.is_owned ≡ true))

module _ {X : Type 0} (admission : Option Err) (execution_error : Execution X → Option Err)
    (fee_error : CommissionReport → Option Err) where
  pub gone-Inv :
      {n : ℕ} (s : Executions X)
      → Bounded n s.correlation
      → s.sub.is_owned ≡ false
      → Inv n (after_cancel admission execution_error fee_error s)
  unfolding after_cancel clear
  gone-Inv {n} s b gone =
      if_cases (Inv n) s.sub.is_owned (λ o. ground (arith, gone, o))
        (λ o. record {
          bounded = clear-Bounded b;
          delivered = tt;
          live = λ k. ground (arith, gone, k);
        })

  pub after_cancel-owned :
      (s : Executions X)
      → s.sub.is_owned ≡ true
      → after_cancel admission execution_error fee_error s ≡ s
  unfolding after_cancel
  after_cancel-owned s owned =
      if_cases (λ k. k ≡ s) s.sub.is_owned (λ o. refl) (λ o. ground (arith, owned, o))

  pub terminate-Inv :
      {n : ℕ} (e : Err) (s : Executions X)
      → Bounded n s.correlation
      → s.sub.is_owned ≡ true
      → Inv n (terminate admission execution_error fee_error e s)
  unfolding terminate
  terminate-Inv {n} e s b owned =
      if_cases (Inv n) s.sub.is_owned
        (λ o.
          gone-Inv (record s { sub = cancel_from_actor admission (some e) s.sub }) b
            (cancel-is_owned admission (some e) s.sub))
        (λ o. ground (arith, owned, o))

  pub emit_update-Sent :
      {n : ℕ} (u : ExecutionUpdate X) (s : Executions X)
      → Bounded n s.correlation
      → s.sub.is_owned ≡ true
      → s.sub.is_done ≡ false
      → Sent n s.correlation (emit_update admission execution_error fee_error u s)
  unfolding emit_update Sent
  emit_update-Sent {n} u s b owned live =
      let next = record s { sub = (emit admission u s.sub).0 } in
      elim (emit-cases admission u s.sub owned live) [
        | inl (sent, still, open_still) ↦
            let same = after_cancel-owned next still in
            inl (
              sent,
              ap (λ (k : Executions X). k.correlation) same,
              ap (λ (k : Executions X). k.sub.is_owned) same ∙ still,
              ap (λ (k : Executions X). k.sub.is_done) same ∙ open_still,
            )
        | inr (failed, gone) ↦ inr (failed, gone-Inv next b gone)
      ]

  pub emit_execution-Sent :
      {n : ℕ} (x : Execution X) (s : Executions X)
      → Bounded n s.correlation
      → s.sub.is_owned ≡ true
      → s.sub.is_done ≡ false
      → Sent n s.correlation (emit_execution admission execution_error fee_error x s)
  unfolding emit_execution Sent
  emit_execution-Sent {n} x s b owned live =
      if_both (Sent n s.correlation) (not s.sub.collect_snapshot)
        (emit_update-Sent (execution_update x) s b owned live)
        (if_both (Sent n s.correlation) (leb s.collect_limit s.collected_executions)
          (inr (refl, terminate-Inv overflow s b owned))
          (emit_update-Sent (execution_update x)
            (record s { collected_executions = s.collected_executions + 1 }) b owned live))

  Sent-FeeSent :
      {n : ℕ} {c : Correlation} (p : Executions X × Bool)
      → Bounded n c
      → All Delivered c.by_exec_id
      → Sent n c p
      → FeeSent n p
  unfolding Sent FeeSent
  Sent-FeeSent {n} {c} p b d (inl (sent, same, owned, live)) = (
    record {
      bounded = subst (Bounded n) (sym same) b;
      delivered = subst (λ (k : Correlation). All Delivered k.by_exec_id) (sym same) d;
      live = λ o. live;
    },
    inr owned,
  )
  Sent-FeeSent p b d (inr (failed, i)) = (i, inl failed)

  pub deliver_fee-FeeSent :
      {n : ℕ} (e : Option Err) (id : String) (en : Entry) (report : CommissionReport)
      (s : Executions X)
      → find_entry id s.correlation.by_exec_id ≡ some en
      → Inv n s
      → s.sub.is_owned ≡ true
      → FeeSent n (deliver_fee admission execution_error fee_error e id en report s)
  unfolding FeeSent
  deliver_fee-FeeSent (some e) id en report s found i owned =
      (terminate-Inv e s i.bounded owned, inl refl)
  deliver_fee-FeeSent {n} none id en report s found i owned =
      let new : Entry = record en { delivered = some report } in
      let written = record (s.correlation) {
        by_exec_id = write_entry id new s.correlation.by_exec_id;
      } in
      let b : Bounded n written = write-Bounded id new en found refl i.bounded in
      let d =
        write-Delivered id new s.correlation.by_exec_id
          (λ key. find-Delivered id en s.correlation.by_exec_id found i.delivered) i.delivered in
      Sent-FeeSent _ b d (
        emit_update-Sent (fee_update report) (record s { correlation = written }) b owned
          (i.live owned))
