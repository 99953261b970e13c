-- ===== src/Engine/Retire/Laws.antt =====
-- Repeated retirements of one connection.
use ibkr_go.Prelude.{
  ℕ, ◌≡◌, refl, sym, ap, ◌∙◌, Bool, true, false, Option, none, some, List, [], ◌∷◌, arith, Memᴰ,
}
use ibkr_go.Errors.Tree.{Err, any_node}
use ibkr_go.Engine.Retire.{errors_join, Retirement, retire_transport_with_route_err}

-- Some error of the option passes the test.
abbrev any_option : (Err → Bool) → Option Err → Bool
any_option p none = false
any_option p (some e) = any_node p e

errors_join-left :
    (p : Err → Bool) (a b : Option Err)
    → any_option p a ≡ true
    → any_option p (errors_join a b) ≡ true
unfolding errors_join any_node
errors_join-left p none none h = ground arith
errors_join-left p none (some b) h = ground arith
errors_join-left p (some a) none h = ground arith
errors_join-left p (some a) (some b) h = ground arith

errors_join-right :
    (p : Err → Bool) (a b : Option Err)
    → any_option p b ≡ true
    → any_option p (errors_join a b) ≡ true
unfolding errors_join any_node
errors_join-right p none none h = ground arith
errors_join-right p none (some b) h = ground arith
errors_join-right p (some a) none h = ground arith
errors_join-right p (some a) (some b) h = ground arith

-- One retirement after another, each with its two errors.
abbrev pub retire_all : List (Option Err × Option Err) → Retirement → Retirement
retire_all [] r = r
retire_all (e ∷ es) r = retire_all es (retire_transport_with_route_err e.0 e.1 r)

abbrev pub connected : ℕ → Retirement
connected tr = record {
  transport = some tr;
  retiring_transport = none;
  transport_retire_err = none;
  transport_route_err = none;
  closed_transports = [];
}

-- The transport is retiring and was closed once.
abbrev pub IsRetiring : ℕ → Retirement → Type 0
IsRetiring tr r =
    (r.transport ≡ some tr) × (r.retiring_transport ≡ some tr) × (r.closed_transports ≡ tr ∷ [])

-- Every node of the first two errors is a node of the retirement's.
abbrev pub Keeps : Option Err → Option Err → Retirement → Type 0
Keeps a b r =
    (p : Err → Bool)
    → (any_option p a ≡ true → any_option p r.transport_retire_err ≡ true)
      × (any_option p b ≡ true → any_option p r.transport_route_err ≡ true)

retire-IsRetiring :
    (tr : ℕ) (a b : Option Err) (r : Retirement)
    → IsRetiring tr r
    → IsRetiring tr (retire_transport_with_route_err a b r)
      × ((retire_transport_with_route_err a b r).transport_retire_err
          ≡ errors_join r.transport_retire_err a)
      × ((retire_transport_with_route_err a b r).transport_route_err
          ≡ errors_join r.transport_route_err b)
unfolding retire_transport_with_route_err
retire-IsRetiring tr a b r i = ground (arith, i)

retire_all-IsRetiring :
    (tr : ℕ) (es : List (Option Err × Option Err)) (r : Retirement)
    → IsRetiring tr r
    → IsRetiring tr (retire_all es r)
      × Keeps r.transport_retire_err r.transport_route_err (retire_all es r)
retire_all-IsRetiring tr [] r i = (i, λ p. (λ h. h, λ h. h))
retire_all-IsRetiring tr (e ∷ es) r i =
    let (now, retire_err, route_err) = retire-IsRetiring tr e.0 e.1 r i in
    let (later, kept) =
      retire_all-IsRetiring tr es (retire_transport_with_route_err e.0 e.1 r) now in
    (
      later,
      λ p. (
        λ h.
            (kept p).0
              (ap (any_option p) retire_err ∙ errors_join-left p r.transport_retire_err e.0 h),
        λ h.
            (kept p).1
              (ap (any_option p) route_err ∙ errors_join-left p r.transport_route_err e.1 h),
      ),
    )

retire_all-Keeps :
    (tr : ℕ) (es : List (Option Err × Option Err)) (r : Retirement) {a b : Option Err}
    → IsRetiring tr r
    → Memᴰ (a, b) es
    → Keeps a b (retire_all es r)
retire_all-Keeps tr [] r i m = elim m [ ]
retire_all-Keeps tr (e ∷ es) r {a} {b} i (Memᴰ.head same) =
    let (now, retire_err, route_err) = retire-IsRetiring tr e.0 e.1 r i in
    let (later, kept) =
      retire_all-IsRetiring tr es (retire_transport_with_route_err e.0 e.1 r) now in
    λ p. (
      λ h. (kept p).0 (
          ap (any_option p) retire_err
          ∙ errors_join-right p r.transport_retire_err e.0
              (ap (λ x. any_option p x.0) (sym same) ∙ h)),
      λ h. (kept p).1 (
          ap (any_option p) route_err
          ∙ errors_join-right p r.transport_route_err e.1
              (ap (λ x. any_option p x.1) (sym same) ∙ h)),
    )
retire_all-Keeps tr (e ∷ es) r i (Memᴰ.tail m) =
    retire_all-Keeps tr es (retire_transport_with_route_err e.0 e.1 r)
      (retire-IsRetiring tr e.0 e.1 r i).0 m

-- However often a connection is retired, it is closed once. A test of nodes that finds one in an
-- error that the connection was retired with finds one in the error of the session, and likewise
-- for the errors given to the routes.
pub retire_all_once :
    (tr : ℕ) (es : List (Option Err × Option Err)) (a b : Option Err)
    → Memᴰ (a, b) es
    → ((retire_all es (connected tr)).closed_transports ≡ tr ∷ [])
      × Keeps a b (retire_all es (connected tr))
unfolding retire_transport_with_route_err
retire_all_once tr [] a b m = elim m [ ]
retire_all_once tr (e ∷ es) a b m =
    let first : IsRetiring tr (retire_transport_with_route_err e.0 e.1 (connected tr)) =
      (refl, refl, refl) in
    let (later, kept) =
      retire_all-IsRetiring tr es (retire_transport_with_route_err e.0 e.1 (connected tr)) first in
    (
      later.2,
      elim m [
        | Memᴰ.head same ↦ λ p. (
          λ h. (kept p).0 (ap (λ x. any_option p x.0) (sym same) ∙ h),
          λ h. (kept p).1 (ap (λ x. any_option p x.1) (sym same) ∙ h),
        )
        | Memᴰ.tail rest ↦
            retire_all-Keeps tr es (retire_transport_with_route_err e.0 e.1 (connected tr)) first
              rest
      ],
    )
