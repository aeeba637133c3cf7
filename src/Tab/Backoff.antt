-- ===== src/Tab/Backoff.antt =====
-- How long a tab waits before it connects again (static/app.js: scheduleReconnect).
use goclipboard.Common.{
  ℕ, zero, suc, ◌+◌, ◌-◌, ◌*◌, ◌≡◌, refl, sym, ap, ◌∙◌, true, false, some, List, [], ◌∷◌,
  Bool-cases, inl, inr, arith, Bool, if◌then◌else◌, ltb, leb, ◌==◌, length,
}
use mathlib.Core.Path.{subst}
use goclipboard.Tab.{Tab, has_some}
use goclipboard.Tab.Events.{Event, reconnect_due, closed, step_if, tab_step, tab_run}
use goclipboard.Tab.Connection.{
  min, backoff, schedule_reconnect, connect_ws, open_socket, close_socket, set_connected, on_close,
}

-- From the fifth attempt on, the delay is 15000.
late : (n : ℕ) → backoff (suc (suc (suc (suc (suc n))))) ≡ 15000
unfolding backoff
late n =
    let more : ltb 4 (suc (suc (suc (suc (suc n)))) - 1) ≡ false → n ≡ 0 = λ h. ground arith in
    elim (Bool-cases (ltb 4 (suc (suc (suc (suc (suc n)))) - 1))) [
      | inl h ↦ rw h refl
      | inr h ↦ rw (more h) refl
    ]

doubles : (n : ℕ) → backoff (suc (suc n)) ≡ min 15000 (2 * backoff (suc n))
unfolding backoff
doubles zero = refl
doubles (suc zero) = refl
doubles (suc (suc zero)) = refl
doubles (suc (suc (suc zero))) = refl
doubles (suc (suc (suc (suc n)))) = late (suc n) ∙ sym (ap (λ d. min 15000 (2 * d)) (late n))

in_bounds : (n : ℕ) → (leb 1000 (backoff (suc n)) ≡ true) × (leb (backoff (suc n)) 15000 ≡ true)
unfolding backoff
in_bounds zero = (refl, refl)
in_bounds (suc zero) = (refl, refl)
in_bounds (suc (suc zero)) = (refl, refl)
in_bounds (suc (suc (suc zero))) = (refl, refl)
in_bounds (suc (suc (suc (suc n)))) = rw (late n) (refl, refl)

-- The waiting times: a second, twice as long after every further failure, and at most 15 seconds.
unfoldable pub wait : ℕ → ℕ
wait zero = 1000
wait (suc n) = min 15000 (2 * wait n)

wait_lem : (n : ℕ) → backoff (suc n) ≡ wait n
unfolding backoff wait
wait_lem zero = refl
wait_lem (suc n) = doubles n ∙ ap (λ d. min 15000 (2 * d)) (wait_lem n)

-- Attempts in a row that fail: the constructor of the socket throws, or the socket, which is the next one,
-- closes before it has opened.
unfoldable pub failures : ℕ → ℕ → List Bool → List Event
failures jitter k [] = []
failures jitter k (true ∷ throws) = reconnect_due true jitter ∷ failures jitter k throws
failures jitter k (false ∷ throws) =
    reconnect_due false jitter ∷ closed jitter k ∷ failures jitter (suc k) throws

-- What one of them leaves.
Failed : ℕ → ℕ → ℕ → Tab → Type 0
Failed jitter a k t =
    (t.reconnect_timer ≡ some (backoff a + jitter))
    × (t.session.reconnect_attempts ≡ a)
    × (t.next_socket ≡ k)

tab_step-due :
    (throws : Bool) (jitter : ℕ) (t : Tab)
    → has_some t.reconnect_timer ≡ true
    → tab_step (reconnect_due throws jitter) t ≡ connect_ws throws jitter t
unfolding tab_step step_if
tab_step-due throws jitter t due = ap (λ b. if b then connect_ws throws jitter t else t) due

thrown :
    (jitter : ℕ) (t : Tab)
    → Failed jitter (t.session.reconnect_attempts + 1) t.next_socket (connect_ws true jitter t)
unfolding Failed connect_ws open_socket close_socket schedule_reconnect set_connected
thrown jitter t = (refl, refl, refl)

dropped :
    (jitter : ℕ) (t : Tab)
    → Failed jitter
        (t.session.reconnect_attempts + 1)
        (suc t.next_socket)
        (on_close jitter t.next_socket (connect_ws false jitter t))
unfolding Failed on_close connect_ws open_socket close_socket schedule_reconnect set_connected
dropped jitter t =
    let own : (t.next_socket == t.next_socket) ≡ true = ground arith in rw own (refl, refl, refl)

step-thrown :
    (jitter : ℕ) (t : Tab)
    → has_some t.reconnect_timer ≡ true
    → Failed jitter
        (t.session.reconnect_attempts + 1)
        t.next_socket
        (tab_step (reconnect_due true jitter) t)
step-thrown jitter t due =
    subst (Failed jitter (t.session.reconnect_attempts + 1) t.next_socket)
      (sym (tab_step-due true jitter t due)) (thrown jitter t)

step-dropped :
    (jitter : ℕ) (t : Tab)
    → has_some t.reconnect_timer ≡ true
    → Failed jitter
        (t.session.reconnect_attempts + 1)
        (suc t.next_socket)
        (tab_step (closed jitter t.next_socket) (tab_step (reconnect_due false jitter) t))
unfolding tab_step
step-dropped jitter t due =
    subst
      (λ u.
        Failed jitter (t.session.reconnect_attempts + 1) (suc t.next_socket)
          (on_close jitter t.next_socket u))
      (sym (tab_step-due false jitter t due)) (dropped jitter t)

tab_run-failures :
    (jitter a k : ℕ) (throws : List Bool) (t : Tab)
    → Failed jitter a k t
    → (tab_run (failures jitter k throws) t).reconnect_timer
      ≡ some (backoff (a + length throws) + jitter)
unfolding tab_run failures Failed
tab_run-failures jitter a k [] t f = f.0 ∙ ap (λ m. some (backoff m + jitter)) (omega arith)
tab_run-failures jitter a k (true ∷ throws) t f =
    let h = step-thrown jitter t (ap has_some f.0) in
    tab_run-failures jitter (a + 1) k throws (tab_step (reconnect_due true jitter) t) (
      subst (λ b. Failed jitter (b + 1) k (tab_step (reconnect_due true jitter) t)) f.1
        (subst
          (λ j.
            Failed jitter (t.session.reconnect_attempts + 1) j
              (tab_step (reconnect_due true jitter) t))
          f.2 h))
    ∙ ap (λ m. some (backoff m + jitter)) (omega arith)
tab_run-failures jitter a k (false ∷ throws) t f =
    let h = step-dropped jitter t (ap has_some f.0) in
    let after = λ (j : ℕ). tab_step (closed jitter j) (tab_step (reconnect_due false jitter) t) in
    tab_run-failures jitter (a + 1) (suc k) throws (after k) (
      subst (λ b. Failed jitter (b + 1) (suc k) (after k)) f.1
        (subst (λ j. Failed jitter (t.session.reconnect_attempts + 1) (suc j) (after j)) f.2 h))
    ∙ ap (λ m. some (backoff m + jitter)) (omega arith)

first_failure :
    (jitter : ℕ) (throws : Bool) (more : List Bool) (t : Tab)
    → has_some t.reconnect_timer ≡ true
    → t.session.reconnect_attempts ≡ 0
    → (tab_run (failures jitter t.next_socket (throws ∷ more)) t).reconnect_timer
      ≡ some (backoff (suc (length more)) + jitter)
unfolding tab_run failures
first_failure jitter true more t due h =
    tab_run-failures jitter (t.session.reconnect_attempts + 1) t.next_socket more
      (tab_step (reconnect_due true jitter) t) (step-thrown jitter t due)
    ∙ ap (λ a. some (backoff (a + 1 + length more) + jitter)) h
    ∙ ap (λ m. some (backoff m + jitter)) (omega arith)
first_failure jitter false more t due h =
    tab_run-failures jitter (t.session.reconnect_attempts + 1) (suc t.next_socket) more
      (tab_step (closed jitter t.next_socket) (tab_step (reconnect_due false jitter) t))
      (step-dropped jitter t due)
    ∙ ap (λ a. some (backoff (a + 1 + length more) + jitter)) h
    ∙ ap (λ m. some (backoff m + jitter)) (omega arith)

-- The timer of a tab is set and it has made no attempt since the last connection. Then attempts in a row
-- fail: for each of them the constructor of the socket throws, or the new socket closes before it has
-- opened. After the last one the timer is set to `wait n`, where `n` attempts failed before it,
-- with the random part on top; that is at least one and at most 15 seconds, and at any further
-- failure the least of 15 seconds and twice the time before.
pub failures-wait :
    (jitter : ℕ) (throws : Bool) (more : List Bool) (t : Tab)
    → has_some t.reconnect_timer ≡ true
    → t.session.reconnect_attempts ≡ 0
    → let n = length more in
      ((tab_run (failures jitter t.next_socket (throws ∷ more)) t).reconnect_timer
        ≡ some (wait n + jitter))
      × (leb 1000 (wait n) ≡ true)
      × (leb (wait n) 15000 ≡ true)
failures-wait jitter throws more t due h =
    let n = length more in
    let e = wait_lem n in
    (
      first_failure jitter throws more t due h ∙ ap (λ d. some (d + jitter)) e,
      subst (λ d. leb 1000 d ≡ true) e (in_bounds n).0,
      subst (λ d. leb d 15000 ≡ true) e (in_bounds n).1,
    )
