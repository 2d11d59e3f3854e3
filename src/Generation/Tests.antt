-- ===== src/Generation/Tests.antt =====
-- The theorems at a system whose only state is the link and a clock.
use s3_storage_node.Common.{
  ℕ, ◌≤◌, String, ◌≡◌, refl, sym, true, false, [], ◌∷◌, Option, none, some, List, arith, All,
  length, false≢true,
}
use s3_storage_node.Common.Int.{ℤ}
use s3_storage_node.Generation.System.{System}
use s3_storage_node.Generation.Machine.{Worker, Machine, GenerationError}
use s3_storage_node.Generation.Network.{nameservers_of, nameservers_from, note_line}
use s3_storage_node.Generation.Worker.{wait_until, worker_ip}
use s3_storage_node.Generation.Detached.{fence_for, retiring, perform_all, perform_all-Detached}
use s3_storage_node.Generation.Start.{enter_command}
use s3_storage_node.Generation.Entered.{Inside, enter_command-Inside}
use s3_storage_node.Generation.Lease.{
  Flock, FlockLaws, Leases, acquiring, releasing, run_actions, run_actions_exclusive,
}
use s3_storage_node.Generation.Counter.{Decimal}
use s3_storage_node.Generation.Waits.{Honest, wait_until-Honest}
use s3_storage_node.Generation.Resolvers.{Distinct, Parsed, nameservers_of-Distinct}
use s3_storage_node.Generation.Example.{World, os, text, linked, laws, machine}

perform_all-Detached_example :
    linked (perform_all os text (fence_for "lost" ∷ retiring ∷ []) machine).world ≡ false
unfolding perform_all worker_ip s3_storage_node.Generation.Machine.written
perform_all-Detached_example =
    perform_all-Detached os text linked laws (fence_for "lost" ∷ retiring ∷ []) machine
      (λ f. absurd (false≢true f)) refl refl

wait_until-Honest_example :
    Honest os text
      (λ w. false)
      (λ w. false)
      100
      (wait_until os text 3 100 (λ w. false) (λ w. false) true machine)
wait_until-Honest_example =
    wait_until-Honest os text (λ w. false) (λ w. false) true (λ w. omega arith) 3 100 machine
      (omega arith)

nameservers_of-Distinct_example :
    (1 ≤ length {A = String} ("10.0.0.1" ∷ []))
    × Distinct ("10.0.0.1" ∷ [])
    × All (Parsed text) ("10.0.0.1" ∷ [])
unfolding nameservers_of nameservers_from note_line
nameservers_of-Distinct_example =
    nameservers_of-Distinct text "nameserver 10.0.0.1" ("10.0.0.1" ∷ []) refl

-- The lock file holds its owner.
abbrev lock_for : ℕ → Option ℕ → Option (Option ℕ)
lock_for g none = some (some g)
lock_for g (some h) = none

abbrev flock : Flock (Option ℕ)
flock = record { lock = lock_for; unlock = λ g l. none }

locks_lem : (g : ℕ) (l l' : Option ℕ) → lock_for g l ≡ some l' → (l ≡ none) × (l' ≡ some g)
locks_lem g none l' h = (refl, let e = sym h in cc)
locks_lem g (some k) l' h = cc

abbrev flock_laws : FlockLaws flock (λ l. l)
flock_laws = record { locks = locks_lem; unlocks = λ g l h. refl }

abbrev nobody : Leases (Option ℕ)
nobody = record { file = none; held = λ g. false }

run_actions_exclusive_example : ◌≡◌ {A = ℕ} 2 2
unfolding run_actions
run_actions_exclusive_example =
    run_actions_exclusive flock (λ l. l) flock_laws
      (acquiring 1 ∷ acquiring 2 ∷ releasing 1 ∷ acquiring 2 ∷ []) nobody 2 2
      (λ g e. absurd (false≢true e)) refl refl

abbrev decimal : Decimal ℤ
decimal = record { render = λ z. z; parse = λ z. some z; parse-render = λ z. refl }

-- The system in which every process is alive.
abbrev living : System World
living = record os { alive = λ pid w. true }

-- The command that enters the namespace as user 5 and group 6.
abbrev entered : List String → List String
entered arguments =
    "nsenter"
    ∷ "--target"
    ∷ "1"
    ∷ "--mount"
    ∷ "--net"
    ∷ "--"
    ∷ "setpriv"
    ∷ text.concat "--reuid=" "1"
    ∷ text.concat "--regid=" "1"
    ∷ "--clear-groups"
    ∷ "--"
    ∷ arguments

enter_command-Inside_example :
    Inside living text machine.worker.keeper machine.world
      ("weed" ∷ "-ip.bind=127.0.0.1" ∷ [])
      (some 5)
      (some 6)
      (entered ("weed" ∷ "-ip.bind=0.0.0.0" ∷ []))
    × ((enter_command living text ("weed" ∷ "-ip.bind=127.0.0.1" ∷ []) (some 5) (some 6) machine).1
        ≡ machine)
unfolding enter_command
enter_command-Inside_example =
    enter_command-Inside living text ("weed" ∷ "-ip.bind=127.0.0.1" ∷ [])
      (entered ("weed" ∷ "-ip.bind=0.0.0.0" ∷ [])) (some 5) (some 6) machine refl refl
