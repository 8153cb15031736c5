-- ===== src/Api/RateLimiter/Bounds.antt =====
-- How many requests of one key a window of RateLimiter.ts lets through.
use rosa_pay_application.Base.{
  ℕ, ◌+◌, ◌*◌, ◌≤◌, ◌<◌, ◌≡◌, refl, ◌⊎◌, inl, inr, String, true, false, ◌&&◌, none, some, List, [],
  ◌∷◌, All, arith, str_eq, eq_iff, eq_refl, leb, if◌then◌else◌, Bool-cases, Option-cases,
}
use rosa_pay_application.Base.Dict.{Dict, get, put, get-put, get-purge_kept}
use rosa_pay_application.Api.RateLimiter.{
  RateLimiterOptions, Window, check, open_window, use_window, is_expired,
}

-- A call, as its time and its key.
abbrev pub Call : Type 0
Call = ℕ × String

module _ (options : RateLimiterOptions) where
  -- How many of the calls are by the key and allowed, one after another.
  pub granted : String → List Call → Dict Window → ℕ
  granted key [] windows = 0
  granted key ((now, k) ∷ calls) windows =
      let (decision, windows') = check options now k windows in
      (if str_eq k key && decision.allowed then 1 else 0) + granted key calls windows'

  open_window-keeps :
      (now : ℕ) (key k : String) (w : Window) (windows : Dict Window)
      → get key windows ≡ some w
      → now < w.reset_at
      → str_eq k key ≡ false
      → get key (open_window options now k windows).1 ≡ some w
  unfolding open_window
  open_window-keeps now key k w windows found live other =
      get-purge_kept (is_expired now) key w _ (rw get-put (rw other found)) (ground arith)

  -- The window that a call opens is there after it.
  open_window-opens :
      (now : ℕ) (key : String) (windows : Dict Window)
      → 0 < options.window_ms
      → get key (open_window options now key windows).1
        ≡ some (record { count = 1; reset_at = now + options.window_ms })
  unfolding open_window
  open_window-opens now key windows h =
      get-purge_kept (is_expired now) key _ _ (rw get-put (rw eq_refl refl)) (ground arith)

  use_window-keeps :
      (now : ℕ) (key k : String) (v w : Window) (windows : Dict Window)
      → get key windows ≡ some w
      → str_eq k key ≡ false
      → get key (use_window options now k v windows).1 ≡ some w
  unfolding use_window
  use_window-keeps now key k v w windows found other =
      ground (arith, get-put k key (record v { count = v.count + 1 }) windows)

  -- A call of another key leaves an open window as it is.
  check-other_key :
      (now : ℕ) (key k : String) (w : Window) (windows : Dict Window)
      → get key windows ≡ some w
      → now < w.reset_at
      → str_eq k key ≡ false
      → get key (check options now k windows).1 ≡ some w
  unfolding check
  check-other_key now key k w windows found live other = elim (Option-cases (get k windows)) [
    | inl missing ↦ rw (missing, check) (open_window-keeps now key k w windows found live other)
    | inr (v, there) ↦
        rw (there, check)
          (elim (Bool-cases (is_expired now v)) [
            | inl old ↦ rw old (open_window-keeps now key k w windows found live other)
            | inr open_still ↦ rw open_still (use_window-keeps now key k v w windows found other)
          ])
  ]

  -- A call of the key in its open window is allowed and counted, or refused and changes nothing.
  check-same_key :
      (now : ℕ) (key : String) (w : Window) (windows : Dict Window)
      → get key windows ≡ some w
      → now < w.reset_at
      → check options now key windows ≡ use_window options now key w windows
  unfolding check
  check-same_key now key w windows found live = ground arith

  -- Once the calls of a key in its open window have been counted, no more than the limit are
  -- allowed before the window resets, whatever the calls of other keys are.
  pub granted_bounded :
      (key : String) (calls : List Call) (windows : Dict Window) (w : Window)
      → get key windows ≡ some w
      → w.count ≤ options.limit
      → All (λ c. c.0 < w.reset_at) calls
      → granted key calls windows + w.count ≤ options.limit
  unfolding granted use_window
  granted_bounded key [] windows w found h _ = omega arith
  granted_bounded key ((now, k) ∷ calls) windows w found h (live, later) =
      elim (Bool-cases (str_eq k key)) [
        | inr other ↦ rw other (
            omega (
              arith,
              granted_bounded key calls (check options now k windows).1 w
                  (check-other_key now key k w windows found live other) h later,
            ))
        | inl same ↦
            let at_key : k ≡ key = (eq_iff k key).0 same in
            rw same (
              rw at_key (
                rw (check-same_key now key w windows found live)
                  (elim (Bool-cases (leb options.limit w.count)) [
                    | inl full ↦
                        rw full (omega (arith, granted_bounded key calls windows w found h later))
                    | inr room ↦ rw room (
                        omega (
                          arith,
                          granted_bounded key calls
                              (put key (record w { count = w.count + 1 }) windows)
                              (record w { count = w.count + 1 }) (rw get-put (rw eq_refl refl))
                              (ground arith) later,
                        ))
                  ])))
      ]

  -- What a first call or one behind the reset of its window does.
  check-opens :
      (now : ℕ) (key : String) (windows : Dict Window)
      → (get key windows ≡ none) ⊎ ((w : Window) × (get key windows ≡ some w) × (w.reset_at ≤ now))
      → check options now key windows ≡ open_window options now key windows
  unfolding check
  check-opens now key windows h = ground arith

  -- Of the calls of one key in the window that its first call opens, that call included, at most
  -- `limit` are allowed, whatever the other keys' calls in between are.
  pub window_bounded :
      (key : String) (now : ℕ) (calls : List Call) (windows : Dict Window)
      → 0 < options.limit
      → 0 < options.window_ms
      → (get key windows ≡ none) ⊎ ((w : Window) × (get key windows ≡ some w) × (w.reset_at ≤ now))
      → All (λ c. c.0 < now + options.window_ms) calls
      → granted key ((now, key) ∷ calls) windows ≤ options.limit
  unfolding granted open_window
  window_bounded key now calls windows positive wide closed early =
      rw (check-opens now key windows closed) (
        rw eq_refl (
          omega (
            arith,
            granted_bounded key calls (open_window options now key windows).1
                (record { count = 1; reset_at = now + options.window_ms })
                (open_window-opens now key windows wide) (omega arith) early,
          )))

  -- A refusal says when to come back: if nothing happens in between, the same key's call is
  -- allowed once the seconds that the refusal names have passed.
  pub retry_after_suffices :
      (now later : ℕ) (key : String) (windows : Dict Window) (seconds : ℕ)
      → (check options now key windows).0
        ≡ record { allowed = false; retry_after_seconds = seconds }
      → now + seconds * 1000 ≤ later
      → (check options later key (check options now key windows).1).0.allowed ≡ true
  unfolding check open_window use_window
  retry_after_suffices now later key windows seconds refused h = ground arith
