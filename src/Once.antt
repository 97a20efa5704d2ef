-- ===== src/Once.antt =====
-- lib/spin-once/src/lib.rs: `Once` and `TakeOnce`, with callers whose atomic accesses interleave. A step
-- is what one caller does up to its next access of the shared state. A reader that sees the state of
-- the end of an initialization also sees the value, which is what the orderings Acquire and Release
-- are for, so accesses are in one order. A value that is not initialized is `none`, and a read of one
-- ends in `broken`.
pub mod Steps
pub mod Agreement
use corrosios.Base.{ℕ, Option, none, some, Bool, true, false, List, [], ◌∷◌, ◌==◌, if◌then◌else◌}

pub data OnceState : Type 0 where
  uninitialized initializing initialized : OnceState

pub record Once {ℓ} (T : Type ℓ) : Type ℓ where
  pub value : Option T
  pub state : OnceState

-- Where a caller is: before `get`, `get_or_init_with` or `init`; at the exchange of
-- `get_or_init_with`; before the initialization of the value, and behind it before the store of the
-- state; in the loop; and the ends of calls.
pub data Caller {ℓ} (T : Type ℓ) : Type ℓ where
  at_get : Caller T
  at_get_or_init at_exchange at_init at_write : T → Caller T
  at_store : T → Caller T
  at_loop : Caller T
  has : T → Caller T
  has_none panicked broken : Caller T

module _ {ℓ} {T : Type ℓ} where
  abbrev pub new_once : Once T
  new_once = record { value = none; state = uninitialized }

  abbrev pub get_unchecked : Once T → Caller T
  get_unchecked o = elim o.value [ none ↦ broken | some a ↦ has a ]

  -- `get`, and what its caller does where it answers `None`.
  abbrev get_value : Once T → OnceState → Caller T → Caller T
  get_value o initialized otherwise = get_unchecked o
  get_value o _ otherwise = otherwise

  -- The exchange of `get_or_init_with_raw`.
  abbrev exchange : Once T → OnceState → T → Once T × Caller T
  exchange o uninitialized v = (record o { state = initializing }, at_write v)
  exchange o initialized v = (o, get_unchecked o)
  exchange o initializing v = (o, at_loop)

  -- The exchange of `init_with`.
  abbrev exchange_init : Once T → OnceState → T → Once T × Caller T
  exchange_init o uninitialized v = (record o { state = initializing }, at_write v)
  exchange_init o _ v = (o, panicked)

  abbrev spin : Once T → OnceState → Caller T
  spin o initializing = at_loop
  spin o _ = get_unchecked o

  abbrev pub step : Once T → Caller T → Once T × Caller T
  step o at_get = (o, get_value o o.state has_none)
  step o (at_get_or_init v) = (o, get_value o o.state (at_exchange v))
  step o (at_exchange v) = exchange o o.state v
  step o (at_init v) = exchange_init o o.state v
  step o (at_write v) = (record o { value = some v }, at_store v)
  step o (at_store v) = (record o { state = initialized }, has v)
  step o at_loop = (o, spin o o.state)
  step o (has v) = (o, has v)
  step o has_none = (o, has_none)
  step o panicked = (o, panicked)
  step o broken = (o, broken)

-- A cell with its callers, by number.
pub record System {ℓ} (T : Type ℓ) : Type ℓ where
  pub once : Once T
  pub callers : ℕ → Caller T

module _ {ℓ} {T : Type ℓ} where
  abbrev pub with_step : System T → ℕ → Once T × Caller T → System T
  with_step s i (o, c) = record { once = o; callers = λ j. if i == j then c else s.callers j }

  unfoldable pub run : List ℕ → System T → System T
  run [] s = s
  run (i ∷ is) s = run is (with_step s i (step s.once (s.callers i)))

-- `TakeOnce`, with the value in the cell.
pub record TakeOnce {ℓ} (T : Type ℓ) : Type ℓ where
  pub content : Option T
  pub taken : Bool

-- `take_init`, and whether the caller has the value.
unfoldable take_init {ℓ} : {T : Type ℓ} → TakeOnce T → T → TakeOnce T × Bool
take_init o v = if o.taken then (o, false) else (record { content = some v; taken = true }, true)
