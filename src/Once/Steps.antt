-- ===== src/Once/Steps.antt =====
-- lib/spin-once/src/lib.rs: what a step of one caller does to a `Once` and to the other callers.
use corrosios.Base.{◌≡◌, ◌≢◌, refl, arith, Option, none, some, Bool, true, false, inl, inr, ◌⊎◌}
use corrosios.Once.{
  OnceState, uninitialized, initializing, initialized, Once, Caller, at_get, at_get_or_init,
  at_exchange, at_init, at_write, at_store, at_loop, has, has_none, panicked, broken, get_unchecked,
  step,
}

pub begun : initializing ≢ uninitialized
begun e = ground arith

ended : initialized ≢ uninitialized
ended e = ground arith

module _ {T : Type 0} where
  -- What the cell is like when a caller is where it is.
  abbrev pub Agrees : Once T → Caller T → Type 0
  Agrees o (at_write v) = (o.state ≡ initializing) × (o.value ≡ none)
  Agrees o (at_store v) = (o.state ≡ initializing) × (o.value ≡ some v)
  Agrees o (has v) = (o.state ≡ initialized) × (o.value ≡ some v)
  Agrees o at_loop = o.state ≢ uninitialized
  Agrees o broken = ⊥
  Agrees o _ = Unit

  -- The value is there exactly where the state says so.
  abbrev pub IsFilled : Once T → OnceState → Type 0
  IsFilled o uninitialized = o.value ≡ none
  IsFilled o initialized = (a : T) × (o.value ≡ some a)
  IsFilled o initializing = Unit

  abbrev pub initializes : Caller T → Bool
  initializes (at_write v) = true
  initializes (at_store v) = true
  initializes _ = false

  abbrev pub cell : Option T → OnceState → Once T
  cell value state = record { value = value; state = state }

  -- A step of one caller, seen by the cell and by the other callers.
  pub record Steps (o : Once T) (c : Caller T) (r : Once T × Caller T) : Type 0 where
    pub filled : IsFilled (r.0) ((r.0).state)
    pub agrees : Agrees (r.0) (r.1)
    pub begins : initializes (r.1) ≡ true → (initializes c ≡ true) ⊎ (o.state ≡ uninitialized)
    pub others :
        (d : Caller T)
        → Agrees o d
        → (initializes c ≡ true → initializes d ≡ false)
        → Agrees (r.0) d

  stays :
      (o : Once T) (c c' : Caller T)
      → IsFilled o o.state
      → Agrees o c'
      → initializes c' ≡ false
      → Steps o c (o, c')
  stays o c c' filled agrees idle = record {
    filled = filled;
    agrees = agrees;
    begins = λ h. absurd (ground arith);
    others = λ d h _. h;
  }

  begins_write :
      (value : Option T) (c : Caller T) (v : T)
      → value ≡ none
      → Steps (cell value uninitialized) c (cell value initializing, at_write v)
  begins_write value c v e = record {
    filled = tt;
    agrees = (refl, e);
    begins = λ h. inr refl;
    others = keep;
  }
    where
      keep :
          (d : Caller T)
          → Agrees (cell value uninitialized) d
          → (initializes c ≡ true → initializes d ≡ false)
          → Agrees (cell value initializing) d
      keep (at_write u) h _ = absurd (ground (arith, h.0))
      keep (at_store u) h _ = absurd (ground (arith, h.0))
      keep (has u) h _ = absurd (ground (arith, h.0))
      keep broken h _ = h
      keep at_get h _ = tt
      keep (at_get_or_init u) h _ = tt
      keep (at_exchange u) h _ = tt
      keep (at_init u) h _ = tt
      keep at_loop h _ = absurd (h refl)
      keep has_none h _ = tt
      keep panicked h _ = tt

  -- The one that initializes changes the cell; no other caller is where the cell matters.
  changes :
      (value value' : Option T) (state : OnceState) (c c' : Caller T)
      → initializes c ≡ true
      → state ≢ uninitialized
      → IsFilled (cell value' state) state
      → Agrees (cell value' state) c'
      → Steps (cell value initializing) c (cell value' state, c')
  changes value value' state c c' first begun filled agrees = record {
    filled = filled;
    agrees = agrees;
    begins = λ h. inl first;
    others = keep;
  }
    where
      keep :
          (d : Caller T)
          → Agrees (cell value initializing) d
          → (initializes c ≡ true → initializes d ≡ false)
          → Agrees (cell value' state) d
      keep (at_write u) h idle = absurd (ground (arith, idle first))
      keep (at_store u) h idle = absurd (ground (arith, idle first))
      keep (has u) h _ = absurd (ground (arith, h.0))
      keep broken h _ = h
      keep at_get h _ = tt
      keep (at_get_or_init u) h _ = tt
      keep (at_exchange u) h _ = tt
      keep (at_init u) h _ = tt
      keep at_loop h _ = begun
      keep has_none h _ = tt
      keep panicked h _ = tt

  reads :
      (value : Option T) (c : Caller T)
      → IsFilled (cell value initialized) initialized
      → Steps
          (cell value initialized)
          c
          (cell value initialized, get_unchecked (cell value initialized))
  reads none c (a, e) = absurd (ground (arith, e))
  reads (some a) c h = stays (cell (some a) initialized) c (has a) h (refl, refl) refl

  pub step-Steps :
      (value : Option T) (state : OnceState) (c : Caller T)
      → IsFilled (cell value state) state
      → Agrees (cell value state) c
      → Steps (cell value state) c (step (cell value state) c)
  step-Steps value initialized at_get f h = reads value at_get f
  step-Steps value uninitialized at_get f h =
      stays (cell value uninitialized) at_get has_none f tt refl
  step-Steps value initializing at_get f h =
      stays (cell value initializing) at_get has_none f tt refl
  step-Steps value initialized (at_get_or_init v) f h = reads value (at_get_or_init v) f
  step-Steps value uninitialized (at_get_or_init v) f h =
      stays (cell value uninitialized) (at_get_or_init v) (at_exchange v) f tt refl
  step-Steps value initializing (at_get_or_init v) f h =
      stays (cell value initializing) (at_get_or_init v) (at_exchange v) f tt refl
  step-Steps value initialized (at_exchange v) f h = reads value (at_exchange v) f
  step-Steps value uninitialized (at_exchange v) f h = begins_write value (at_exchange v) v f
  step-Steps value initializing (at_exchange v) f h =
      stays (cell value initializing) (at_exchange v) at_loop f begun refl
  step-Steps value initialized (at_init v) f h =
      stays (cell value initialized) (at_init v) panicked f tt refl
  step-Steps value uninitialized (at_init v) f h = begins_write value (at_init v) v f
  step-Steps value initializing (at_init v) f h =
      stays (cell value initializing) (at_init v) panicked f tt refl
  step-Steps value initializing (at_write v) f h =
      changes value (some v) initializing (at_write v) (at_store v) refl begun tt (refl, refl)
  step-Steps value uninitialized (at_write v) f h = absurd (ground (arith, h.0))
  step-Steps value initialized (at_write v) f h = absurd (ground (arith, h.0))
  step-Steps value initializing (at_store v) f h =
      changes value value initialized (at_store v) (has v) refl ended (v, h.1) (refl, h.1)
  step-Steps value uninitialized (at_store v) f h = absurd (ground (arith, h.0))
  step-Steps value initialized (at_store v) f h = absurd (ground (arith, h.0))
  step-Steps value initialized at_loop f h = reads value at_loop f
  step-Steps value initializing at_loop f h =
      stays (cell value initializing) at_loop at_loop f begun refl
  step-Steps value uninitialized at_loop f h = absurd (h refl)
  step-Steps value state (has v) f h = stays (cell value state) (has v) (has v) f h refl
  step-Steps value state has_none f h = stays (cell value state) has_none has_none f tt refl
  step-Steps value state panicked f h = stays (cell value state) panicked panicked f tt refl
  step-Steps value state broken f h = elim h [ ]

  pub initializes-state :
      (o : Once T) (c : Caller T) → Agrees o c → initializes c ≡ true → o.state ≡ initializing
  initializes-state o (at_write v) h first = h.0
  initializes-state o (at_store v) h first = h.0
  initializes-state o at_get h first = absurd (ground arith)
  initializes-state o (at_get_or_init v) h first = absurd (ground arith)
  initializes-state o (at_exchange v) h first = absurd (ground arith)
  initializes-state o (at_init v) h first = absurd (ground arith)
  initializes-state o at_loop h first = absurd (ground arith)
  initializes-state o (has v) h first = absurd (ground arith)
  initializes-state o has_none h first = absurd (ground arith)
  initializes-state o panicked h first = absurd (ground arith)
  initializes-state o broken h first = elim h [ ]
