-- ===== src/Engine/OrderRoutes/Steps.antt =====
-- Each step keeps the history of an order sound.
use ibkr_go.Prelude.{
  ℕ, ◌+◌, int_eq, ◌≡◌, refl, sym, ap, ◌∙◌, inl, inr, Bool, true, false, not, ◌&&◌, ◌||◌, Option,
  none, some, List, [], ◌∷◌, ◌++◌, append_assoc, arith, if_both, if_cases, or_else_both, any,
}
use ibkr_go.Errors.Tree.{Err, Sentinel, sentinel}
use ibkr_go.Transport.{WriteOutcome, write_unwritten, write_incomplete, write_complete_local}
use ibkr_go.Streams.OrderHandle.{emit_event}
use ibkr_go.Engine.OrderRoutes.{
  order_started, order_gap, order_restored, order_recovery_required, OrderEvent, lifecycle,
  business, OrderRoute, close_order_route, emit_or_close, gap_order, restore_order,
  require_order_recovery, abandon_order, after_write_result, handle_transport_write,
  ensure_order_started, deliver, OrderRun, Input, connectivity_lost, data_lost, data_maintained,
  transport_lost, replaced, ready, written, observed, detached, reads, placed, receive_next, act_on,
  is_pending,
}
use ibkr_go.Engine.OrderRoutes.History.{
  next_phase, phase_after, is_recovery, phase_from-snoc, any-snoc, Sound, emit_event-cases,
  close-events, in_phase, emit_or_close-Sound, both-not, both-first, neither, or-false, or-true,
}

module _ {B : Type 0} where
  close-Sound :
      {received : List (OrderEvent B)} {r : OrderRoute B} (e : Option Err)
      → Sound received r
      → Sound received (close_order_route e r)
  unfolding close_order_route
  close-Sound {received} {r} e i = record {
    phase = i.phase;
    alternates = ap (λ q. phase_after false (received ++ q)) (close-events e r) ∙ i.alternates;
    open_phase = λ h. ground (arith, h);
    open_recovery = λ h. ground (arith, h);
  }

  gap-Sound :
      {received : List (OrderEvent B)} {r : OrderRoute B} (seq : ℕ) (e : Option Err)
      → Sound received r
      → Sound received (gap_order seq e r)
  unfolding gap_order
  gap-Sound {received} {r} seq e i =
      if_cases (Sound received) (not r.closed && not r.gapped)
        (λ h.
          let (opened, whole) = both-not r.closed r.gapped h in
          emit_or_close-Sound received (lifecycle order_gap seq e) (record r { gapped = true })
            i.phase i.alternates
            (in_phase {B = B} (lifecycle order_gap seq e) (i.open_phase opened ∙ whole))
            (i.open_recovery opened ∙ sym (or-false _)))
        (λ h. i)

  restore-Sound :
      {received : List (OrderEvent B)} {r : OrderRoute B} (seq : ℕ)
      → Sound received r
      → Sound received (restore_order seq r)
  unfolding restore_order
  restore-Sound {received} {r} seq i =
      if_cases (Sound received) (not r.closed && r.gapped)
        (λ h.
          let (opened, gap) = both-first r.closed r.gapped h in
          emit_or_close-Sound received (lifecycle order_restored seq none)
            (record r { gapped = false }) i.phase i.alternates
            (in_phase {B = B} (lifecycle order_restored seq none) (i.open_phase opened ∙ gap))
            (i.open_recovery opened ∙ sym (or-false _)))
        (λ h. i)

  recovery-Sound :
      {received : List (OrderEvent B)} {r : OrderRoute B} (seq : ℕ)
      → Sound received r
      → Sound received (require_order_recovery seq r)
  unfolding require_order_recovery
  recovery-Sound {received} {r} seq i =
      if_cases (Sound received) (r.closed || not r.gapped) (λ h. i)
        (λ h.
          let (opened, gap) = neither r.closed r.gapped h in
          emit_or_close-Sound received
            (lifecycle order_recovery_required seq
              (some (sentinel Sentinel.order_recovery_required)))
            (record r { gapped = false; recovery_required = true }) i.phase i.alternates
            (in_phase {B = B}
              (lifecycle order_recovery_required seq
                (some (sentinel Sentinel.order_recovery_required)))
              (i.open_phase opened ∙ gap))
            (sym (or-true _)))

  abandon-Sound :
      {received : List (OrderEvent B)} {r : OrderRoute B} (e : Err)
      → Sound received r
      → Sound received (abandon_order e r)
  unfolding abandon_order
  abandon-Sound {received} {r} e i = if_both (Sound received) r.closed i (close-Sound _ i)

  -- An event that says nothing of gaps.
  plain-Sound :
      {received : List (OrderEvent B)} {r : OrderRoute B} (e : OrderEvent B)
      → ((g : Bool) → next_phase e g ≡ some g)
      → is_recovery e ≡ false
      → r.closed ≡ false
      → Sound received r
      → Sound received (emit_or_close e r)
  plain-Sound {received} {r} e plain other opened i =
      emit_or_close-Sound received e r i.phase i.alternates
        (plain i.phase ∙ ap some (i.open_phase opened))
        (i.open_recovery opened
          ∙ sym (ap (λ b. any is_recovery (received ++ r.handle.events) || b) other ∙ or-false _))

  after_write-Sound :
      {received : List (OrderEvent B)} {r : OrderRoute B} (outcome : WriteOutcome) (seq : ℕ)
      → r.closed ≡ false
      → Sound received r
      → Sound received (after_write_result outcome seq r)
  after_write-Sound write_complete_local seq opened i =
      plain-Sound (lifecycle order_started seq none) (λ g. refl) refl opened i
  after_write-Sound write_unwritten seq opened i = close-Sound _ i
  after_write-Sound write_incomplete seq opened i = i

  written-Sound :
      {received : List (OrderEvent B)} {r : OrderRoute B} (key : ℕ) (outcome : WriteOutcome)
      (seq : ℕ)
      → Sound received r
      → Sound received (handle_transport_write key outcome seq r)
  unfolding handle_transport_write
  written-Sound {received} {r} key outcome seq i =
      if_cases (Sound received) (r.closed || not (is_pending key r.pending_write)) (λ h. i)
        (λ h.
          after_write-Sound outcome seq (neither r.closed (is_pending key r.pending_write) h).0
            (record {
              phase = i.phase;
              alternates = i.alternates;
              open_phase = i.open_phase;
              open_recovery = i.open_recovery;
            }))

  started-Sound :
      {received : List (OrderEvent B)} {r : OrderRoute B} (seq key : ℕ)
      → r.closed ≡ false
      → Sound received r
      → Sound received (record r {
        pending_write = none;
        handle = (emit_event (lifecycle order_started seq none) r.handle).0;
      })
  started-Sound {received} {r} seq key opened i =
      elim (emit_event-cases (lifecycle order_started seq none) r.handle) [
        | inl (sent, events) ↦
            let longer =
              ap (λ q. received ++ q) events ∙ sym (append_assoc received r.handle.events _) in
            record {
              phase = i.phase;
              alternates =
                  ap (phase_after false) longer
                  ∙ phase_from-snoc (received ++ r.handle.events) (some false)
                      (lifecycle order_started seq none) i.phase i.alternates;
              open_phase = i.open_phase;
              open_recovery = λ h.
                  i.open_recovery h
                  ∙ sym (
                      ap (any is_recovery) longer
                      ∙ any-snoc (received ++ r.handle.events) (lifecycle order_started seq none)
                      ∙ or-false _);
            }
        | inr (refused, events) ↦ record {
          phase = i.phase;
          alternates = ap (λ q. phase_after false (received ++ q)) events ∙ i.alternates;
          open_phase = i.open_phase;
          open_recovery =
              λ h. i.open_recovery h ∙ sym (ap (λ q. any is_recovery (received ++ q)) events);
        }
      ]

  ensure-Sound :
      {received : List (OrderEvent B)} {r : OrderRoute B} (seq : ℕ)
      → r.closed ≡ false
      → Sound received r
      → Sound received (ensure_order_started seq r).0
        × ((ensure_order_started seq r).0.closed ≡ false)
  unfolding ensure_order_started
  ensure-Sound {received} {r} seq opened i =
      or_else_both (λ (p : OrderRoute B × Bool). Sound received p.0 × (p.0.closed ≡ false))
        r.pending_write (λ key. (started-Sound seq key opened i, opened)) (i, opened)

  deliver-Sound :
      {received : List (OrderEvent B)} {r : OrderRoute B} (seq : ℕ) (b : B)
      → Sound received r
      → Sound received (deliver seq b r)
  unfolding deliver
  deliver-Sound {received} {r} seq b i =
      if_cases (Sound received) r.closed (λ h. i)
        (λ opened.
          let (k, still) = ensure-Sound seq opened i in
          if_both (Sound received) (ensure_order_started seq r).1
            (plain-Sound (business b) (λ g. refl) refl still k) (close-Sound _ k))

  receive_next-Sound :
      (events : List (OrderEvent B)) (t : OrderRun B)
      → t.route.handle.events ≡ events
      → Sound t.received t.route
      → Sound (receive_next events t).received (receive_next events t).route
  receive_next-Sound [] t e i = i
  receive_next-Sound (event ∷ events) t e i =
      let same : (t.received ++ (event ∷ [])) ++ events ≡ t.received ++ t.route.handle.events =
        append_assoc t.received (event ∷ []) events ∙ ap (λ q. t.received ++ q) (sym e) in
      record {
        phase = i.phase;
        alternates = ap (phase_after false) same ∙ i.alternates;
        open_phase = i.open_phase;
        open_recovery = λ h. i.open_recovery h ∙ sym (ap (any is_recovery) same);
      }

  unfoldable pub SoundRun : OrderRun B → Type 0
  SoundRun t = Sound t.received t.route

  pub act_on-SoundRun :
      (seq : ℕ) (i : Input B) (t : OrderRun B) → SoundRun t → SoundRun (act_on seq i t)
  unfolding act_on SoundRun
  act_on-SoundRun seq (placed id capacity key) t k = k
  act_on-SoundRun seq connectivity_lost t k = gap-Sound seq _ k
  act_on-SoundRun seq data_lost t k = recovery-Sound seq (gap-Sound seq _ k)
  act_on-SoundRun seq data_maintained t k = restore-Sound seq k
  act_on-SoundRun seq (transport_lost reconnects e) t k =
      if_both SoundRun reconnects (gap-Sound seq (some e) k) (abandon-Sound e k)
  act_on-SoundRun seq replaced t k = recovery-Sound (seq + 1) k
  act_on-SoundRun seq ready t k = k
  act_on-SoundRun seq (written key outcome) t k = written-Sound key outcome seq k
  act_on-SoundRun seq (observed id b) t k =
      if_both SoundRun (int_eq t.route.order_id id) (deliver-Sound seq b k) k
  act_on-SoundRun seq (detached id) t k =
      if_both SoundRun (int_eq t.route.order_id id) (close-Sound none k) k
  act_on-SoundRun seq (reads id) t k =
      if_both SoundRun (int_eq t.route.order_id id)
        (receive_next-Sound t.route.handle.events t refl k) k
