-- ===== src/Modules/Launching.antt =====
-- What a start of a module (manager.py of services/module-manager) does to the modules that run, and
-- that the starts of several modules in a row and a launch do it.
use linux_ai_native_system.Prelude.{
  ◌≡◌, ◌⊎◌, true, List, ◌∷◌, Option, none, some, Text, text_eq, text_beq_iff, lookup, contains, inl,
  arith,
}
use linux_ai_native_system.Capabilities.Contracts.{Row, Rows}
use linux_ai_native_system.Modules.{
  Started, started, failed, out_of_fuel, unknown_module, not_enabled, worker_failed, start_each,
  launch,
}

-- With each module that runs its dependencies run.
abbrev pub Closed : Rows → List Text → Type 0
Closed rows running =
    (m d : Text) (row : Row)
    → contains running m ≡ true
    → lookup m rows ≡ some row
    → contains row.manifest.dependencies d ≡ true
    → contains running d ≡ true

abbrev pub Within : List Text → List Text → Type 0
Within xs ys = (a : Text) → contains xs a ≡ true → contains ys a ≡ true

-- Each module that runs now ran before, or its worker became ready.
abbrev pub Ready : (Text → Option Text) → List Text → List Text → Type 0
Ready boot running now =
    (a : Text) → contains now a ≡ true → (contains running a ≡ true) ⊎ (boot a ≡ none)

-- What ran still runs, what was started became ready, and what runs has its dependencies.
abbrev pub Grows : Rows → (Text → Option Text) → List Text → List Text → Type 0
Grows rows boot running now = Within running now × Ready boot running now × Closed rows now

-- The module runs at the end, or the worker that is reported gave that error.
abbrev pub Launches : Rows → (Text → Option Text) → List Text → Text → Started → Type 0
Launches rows boot running id (started now) = (contains now id ≡ true) × Grows rows boot running now
Launches rows boot running id (failed (worker_failed m error) now) =
    (boot m ≡ some error) × Grows rows boot running now
Launches rows boot running id _ = ⊥

abbrev pub LaunchesAll : Rows → (Text → Option Text) → List Text → List Text → Started → Type 0
LaunchesAll rows boot running ds (started now) =
    ((d : Text) → contains ds d ≡ true → contains now d ≡ true) × Grows rows boot running now
LaunchesAll rows boot running ds (failed (worker_failed m error) now) =
    (boot m ≡ some error) × Grows rows boot running now
LaunchesAll rows boot running ds _ = ⊥

grow :
    (rows : Rows) (boot : Text → Option Text) (running now later : List Text)
    → Grows rows boot running now
    → Grows rows boot now later
    → Grows rows boot running later
grow rows boot running now later a b =
    let (within, ready, closed) = a in
    let (within', ready', closed') = b in
    (λ x h. within' x (within x h), λ x h. ground (arith, ready' x h, ready x), closed')

pub Grows-same :
    (rows : Rows) (boot : Text → Option Text) (running : List Text)
    → Closed rows running
    → Grows rows boot running running
Grows-same rows boot running c = (λ a m. m, λ a m. inl m, c)

widen :
    (rows : Rows) (boot : Text → Option Text) (running now : List Text) (d : Text) (ds : List Text)
    (r : Started)
    → contains now d ≡ true
    → Grows rows boot running now
    → LaunchesAll rows boot now ds r
    → LaunchesAll rows boot running (d ∷ ds) r
widen rows boot running now d ds (started later) m w a =
    let (within, ready, closed) = a.1 in
    (
      λ x h. ground (arith, h, text_beq_iff d x, a.0 x, within d m),
      grow rows boot running now later w a.1,
    )
widen rows boot running now d ds (failed (worker_failed x e) later) m w a =
    (a.0, grow rows boot running now later w a.1)
widen rows boot running now d ds (failed (unknown_module x) later) m w a = elim a [ ]
widen rows boot running now d ds (failed (not_enabled x) later) m w a = elim a [ ]
widen rows boot running now d ds out_of_fuel m w a = elim a [ ]

pub one_more :
    (rows : Rows) (boot : Text → Option Text) (d : Text) (ds running : List Text)
    (f : Text → List Text → Started) (r : Started)
    → Launches rows boot running d r
    → ((now : List Text) → Closed rows now → LaunchesAll rows boot now ds (start_each f ds now))
    → LaunchesAll rows boot running (d ∷ ds) (elim r as (λ _. Started) [
      | started now ↦ start_each f ds now
      | failed error now ↦ failed error now
      | out_of_fuel ↦ out_of_fuel
    ])
one_more rows boot d ds running f (started now) a rest =
    let (within, ready, closed) = a.1 in
    widen rows boot running now d ds (start_each f ds now) a.0 a.1 (rest now closed)
one_more rows boot d ds running f (failed (worker_failed x e) now) a rest = a
one_more rows boot d ds running f (failed (unknown_module x) now) a rest = elim a [ ]
one_more rows boot d ds running f (failed (not_enabled x) now) a rest = elim a [ ]
one_more rows boot d ds running f out_of_fuel a rest = elim a [ ]

launched :
    (rows : Rows) (boot : Text → Option Text) (running now : List Text) (id : Text) (row : Row)
    → lookup id rows ≡ some row
    → boot id ≡ none
    → ((d : Text) → contains row.manifest.dependencies d ≡ true → contains now d ≡ true)
    → Grows rows boot running now
    → Grows rows boot running (id ∷ now)
launched rows boot running now id row l b deps (within, ready, closed) = (
  λ m h. ground (arith, within m h),
  λ m h. ground (arith, h, b, text_beq_iff id m, ready m),
  λ m d r h lm dep. ground (arith, h, l, lm, dep, text_beq_iff id m, deps d, closed m d r),
)

pub launch_lem :
    (rows : Rows) (boot : Text → Option Text) (running : List Text) (id : Text) (row : Row)
    (answer : Option Text) (r : Started)
    → lookup id rows ≡ some row
    → boot id ≡ answer
    → LaunchesAll rows boot running row.manifest.dependencies r
    → Launches rows boot running id (launch id answer r)
unfolding launch
launch_lem rows boot running id row none (started now) l b a =
    (ground (arith, text_beq_iff id id), launched rows boot running now id row l b a.0 a.1)
launch_lem rows boot running id row (some error) (started now) l b a = (b, a.1)
launch_lem rows boot running id row none (failed (worker_failed m e) now) l b a = a
launch_lem rows boot running id row (some error) (failed (worker_failed m e) now) l b a = a
launch_lem rows boot running id row answer (failed (unknown_module m) now) l b a = elim a [ ]
launch_lem rows boot running id row answer (failed (not_enabled m) now) l b a = elim a [ ]
launch_lem rows boot running id row answer out_of_fuel l b a = elim a [ ]
