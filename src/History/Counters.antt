-- ===== src/History/Counters.antt =====
-- The counters of the history, compared with each other.
use Prim.Native.Char.{code}
use Prim.Native.String.{◌++◌ as join}
use text.Mathlib.TextLemmas.{cons-append}
use s3_storage_node.Common.{
  ℕ, ◌+◌, String, ◌≡◌, refl, ◌≢◌, inl, inr, Bool, true, false, List, [], ◌∷◌, Option, none, some,
  arith, Bool-cases, Option-cases, eq_iff, str_eq, if◌then◌else◌,
}
use s3_storage_node.Common.Dict.{Dict, lookup, insert, lookup-insert}
use s3_storage_node.History.{
  Ending, ActiveGeneration, HistoryState, missing, Operation, begin, end, recover, certify, counter,
  load, finish_active, close_record, note_shutdown, note_fence, increment, finish, start,
  certify_indexes, recover_interrupted_active, superseded, restarted, apply, run,
}

-- The second character of a text, which tells the counters of causes from the fixed ones.
abbrev tail_code : String → ℕ
tail_code String.[] = 0
tail_code (String.◌∷◌ c s) = code c

abbrev second_code : String → ℕ
second_code String.[] = 0
second_code (String.◌∷◌ c s) = tail_code s

cause_key_second : (cause : String) → second_code (join "cause:" cause) ≡ b'a'
cause_key_second cause = rw cons-append (rw cons-append)

cause_key_ne :
    (cause name : String) → second_code name ≢ b'a' → str_eq (join "cause:" cause) name ≡ false
cause_key_ne cause name h = elim (Bool-cases (str_eq (join "cause:" cause) name)) [
  | inl same ↦
      absurd (h (rw (← (eq_iff (join "cause:" cause) name).0 same) (cause_key_second cause)))
  | inr differ ↦ differ
]

bump : String → Dict ℕ → Dict ℕ
bump name d = insert name (counter name d + 1) d

counter-bump :
    (name key : String) (d : Dict ℕ)
    → counter key (bump name d) ≡ counter key d + (if str_eq name key then 1 else 0)
unfolding bump counter
counter-bump name key d =
    ground (arith, lookup-insert name key (counter name d + 1) d, eq_iff name key)

abbrev shutdown_key : Bool → String
shutdown_key clean = if clean then "clean_shutdowns_total" else "unclean_shutdowns_total"

abbrev fence_key : Bool → String
fence_key verified = if verified then "verified_fences_total" else "unverified_fences_total"

finish_active-counters :
    (a : ActiveGeneration) (now : ℕ) (e : Ending) (s : HistoryState)
    → (finish_active a now e s).counters
      ≡ bump (fence_key e.fence_verified) (
          bump
            (shutdown_key e.clean_shutdown)
            (bump (join "cause:" e.cause) (bump "generations_completed_total" s.counters)))
unfolding finish_active close_record note_shutdown note_fence increment bump
finish_active-counters a now e s = elim (Bool-cases e.clean_shutdown) [
  | inl clean ↦ ground arith
  | inr unclean ↦ ground arith
]

-- Every completed generation was created, ended cleanly or uncleanly, and left a fence that was
-- verified or not; one more was created when one is active.
pub record Balanced (d : Dict ℕ) (live : ℕ) : Type 0 where
  pub created :
      counter "generations_created_total" d ≡ counter "generations_completed_total" d + live
  pub ended :
      counter "generations_completed_total" d
      ≡ counter "clean_shutdowns_total" d + counter "unclean_shutdowns_total" d
  pub fenced :
      counter "generations_completed_total" d
      ≡ counter "verified_fences_total" d + counter "unverified_fences_total" d

abbrev pub live : Option ActiveGeneration → ℕ
live none = 0
live (some a) = 1

-- What the counting of one finished generation does to a fixed counter.
counter_after :
    (key fence shutdown cause : String) (d : Dict ℕ)
    → second_code key ≢ b'a'
    → counter key (
        bump fence
          (bump shutdown (bump (join "cause:" cause) (bump "generations_completed_total" d))))
      ≡ counter key d
        + (if str_eq "generations_completed_total" key then 1 else 0)
        + (if str_eq shutdown key then 1 else 0)
        + (if str_eq fence key then 1 else 0)
counter_after key fence shutdown cause d h =
    simp (counter-bump, cause_key_ne cause key h) (omega arith)

abbrev delta : String → String → ℕ
delta name key = if str_eq name key then 1 else 0

-- A shutdown raises one of its two counters, and no other that is compared.
shutdown_delta :
    (clean : Bool)
    → (delta (shutdown_key clean) "generations_created_total" ≡ 0)
      × (delta (shutdown_key clean) "generations_completed_total" ≡ 0)
      × (delta (shutdown_key clean) "clean_shutdowns_total"
            + delta (shutdown_key clean) "unclean_shutdowns_total"
          ≡ 1)
      × (delta (shutdown_key clean) "verified_fences_total" ≡ 0)
      × (delta (shutdown_key clean) "unverified_fences_total" ≡ 0)
shutdown_delta true = (refl, refl, refl, refl, refl)
shutdown_delta false = (refl, refl, refl, refl, refl)

fence_delta :
    (verified : Bool)
    → (delta (fence_key verified) "generations_created_total" ≡ 0)
      × (delta (fence_key verified) "generations_completed_total" ≡ 0)
      × (delta (fence_key verified) "verified_fences_total"
            + delta (fence_key verified) "unverified_fences_total"
          ≡ 1)
      × (delta (fence_key verified) "clean_shutdowns_total" ≡ 0)
      × (delta (fence_key verified) "unclean_shutdowns_total" ≡ 0)
fence_delta true = (refl, refl, refl, refl, refl)
fence_delta false = (refl, refl, refl, refl, refl)

counted-Balanced :
    (cause : String) (d : Dict ℕ) (clean verified : Bool)
    → Balanced d 1
    → Balanced
        (bump (fence_key verified) (
          bump
            (shutdown_key clean)
            (bump (join "cause:" cause) (bump "generations_completed_total" d))))
        0
counted-Balanced cause d clean verified h =
    let after = λ (key : String) (ne : second_code key ≢ b'a').
      counter_after key (fence_key verified) (shutdown_key clean) cause d ne in
    let completed = after "generations_completed_total" (omega arith) in
    let s = shutdown_delta clean in
    let f = fence_delta verified in
    record {
      created = omega (arith, completed, after "generations_created_total" (omega arith));
      ended = omega (
        arith,
        completed,
        after "clean_shutdowns_total" (omega arith),
        after "unclean_shutdowns_total" (omega arith),
      );
      fenced = omega (
        arith,
        completed,
        after "verified_fences_total" (omega arith),
        after "unverified_fences_total" (omega arith),
      );
    }

finish_active-Balanced :
    (a : ActiveGeneration) (now : ℕ) (e : Ending) (s : HistoryState)
    → Balanced s.counters 1
    → Balanced (finish_active a now e s).counters 0
finish_active-Balanced a now e s h =
    rw finish_active-counters
      (counted-Balanced e.cause s.counters e.clean_shutdown e.fence_verified h)

abbrev pub IsBalanced : HistoryState → Type 0
IsBalanced s = Balanced s.counters (live s.active)

finish_active-active :
    (a : ActiveGeneration) (now : ℕ) (e : Ending) (s : HistoryState)
    → (finish_active a now e s).active ≡ none
unfolding finish_active close_record note_shutdown note_fence increment
finish_active-active a now e s = ground arith

-- After `finish` no generation is active.
pub finish-idle : (now : ℕ) (e : Ending) (s : HistoryState) → (finish now e s).active ≡ none
unfolding finish
finish-idle now e s = elim (Option-cases s.active) [
  | inl h ↦ rw (finish, h) h
  | inr (a, h) ↦ rw (finish, h) (finish_active-active a now e s)
]

-- Closing the active record, if there is one.
finish-IsBalanced :
    (now : ℕ) (e : Ending) (s : HistoryState)
    → IsBalanced s
    → Balanced (finish now e s).counters 0 × ((finish now e s).active ≡ none)
unfolding finish
finish-IsBalanced now e s h = elim (Option-cases s.active) [
  | inl idle ↦ rw (idle, finish) (rw idle at h, idle)
  | inr (a, busy) ↦
      rw (busy, finish)
        (finish_active-Balanced a now e s (rw busy at h), finish_active-active a now e s)
]

started-Balanced : (d : Dict ℕ) → Balanced d 0 → Balanced (bump "generations_created_total" d) 1
started-Balanced d h =
    let after = λ (key : String). counter-bump "generations_created_total" key d in
    let completed = after "generations_completed_total" in
    record {
      created = omega (arith, completed, after "generations_created_total");
      ended =
          omega (arith, completed, after "clean_shutdowns_total", after "unclean_shutdowns_total");
      fenced =
          omega (arith, completed, after "verified_fences_total", after "unverified_fences_total");
    }

-- A certification changes none of the compared counters.
certified-Balanced :
    (d : Dict ℕ) (n : ℕ) → Balanced d n → Balanced (bump "index_certifications_total" d) n
certified-Balanced d n h =
    let after = λ (key : String). counter-bump "index_certifications_total" key d in
    let completed = after "generations_completed_total" in
    record {
      created = omega (arith, completed, after "generations_created_total");
      ended =
          omega (arith, completed, after "clean_shutdowns_total", after "unclean_shutdowns_total");
      fenced =
          omega (arith, completed, after "verified_fences_total", after "unverified_fences_total");
    }

recover_eq_finish :
    (now : ℕ) (s : HistoryState) → (recover_interrupted_active now s).0 ≡ finish now restarted s
unfolding recover_interrupted_active finish
recover_eq_finish now s = ground arith

apply-IsBalanced : (op : Operation) (s : HistoryState) → IsBalanced s → IsBalanced (apply op s)
unfolding apply start certify_indexes increment bump
apply-IsBalanced (begin now g t m) s h =
    started-Balanced (finish now superseded s).counters (finish-IsBalanced now superseded s h).0
apply-IsBalanced (end now e) s h = let (b, idle) = finish-IsBalanced now e s h in rw idle b
apply-IsBalanced (recover now) s h =
    let (b, idle) = finish-IsBalanced now restarted s h in rw recover_eq_finish (rw idle b)
apply-IsBalanced (certify now reason) s h = certified-Balanced s.counters (live s.active) h

run-keeps_balance :
    (ops : List Operation) (s : HistoryState) → IsBalanced s → IsBalanced (run ops s)
unfolding run
run-keeps_balance [] s h = h
run-keeps_balance (op ∷ ops) s h = run-keeps_balance ops (apply op s) (apply-IsBalanced op s h)

-- After any operations on a new history, every created generation but the active one has ended,
-- each cleanly or uncleanly, and with a fence that was verified or not.
pub run-IsBalanced : (ops : List Operation) → IsBalanced (run ops (load missing))
unfolding load counter lookup
run-IsBalanced ops =
    run-keeps_balance ops (load missing) (record { created = refl; ended = refl; fenced = refl })
