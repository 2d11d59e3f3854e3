-- ===== src/Generation/Entered.antt =====
-- The commands that `enter_command` yields.
use text.Mathlib.TextEquality.{eq_iff}
use s3_storage_node.Common.{
  ℕ, String, ◌≡◌, refl, sym, ap, ◌∙◌, inl, inr, Bool, true, false, List, [], ◌∷◌, Option, none,
  some, Bool-cases, if◌then◌else◌, str_eq,
}
use s3_storage_node.Common.Result.{Result, ok, err_ok_absurd, ok-injective}
use s3_storage_node.Generation.System.{System, Text}
use s3_storage_node.Generation.Machine.{GenerationError, unavailable, uid_without_gid, Machine}
use s3_storage_node.Generation.Network.{namespace_visible_command}
use s3_storage_node.Generation.Start.{enter_command, enter_alive, enter_keeper, privileges}

-- The arguments with each option that binds a server to the loopback address exchanged for the one
-- that binds it to every address, and no other change.
pub data Exposed : List String → List String → Type 0 where
  ended : Exposed [] []
  exchanged :
      (argument : String) (xs ys : List String)
      → argument ≡ "-ip.bind=127.0.0.1"
      → Exposed xs ys
      → Exposed (argument ∷ xs) ("-ip.bind=0.0.0.0" ∷ ys)
  kept :
      (argument : String) (xs ys : List String)
      → str_eq argument "-ip.bind=127.0.0.1" ≡ false
      → Exposed xs ys
      → Exposed (argument ∷ xs) (argument ∷ ys)

command-Exposed : (command : List String) → Exposed command (namespace_visible_command command)
command-Exposed [] = ended
command-Exposed (argument ∷ arguments) =
    let rest = command-Exposed arguments in
    elim (Bool-cases (str_eq argument "-ip.bind=127.0.0.1")) [
      | inl e ↦
          rw e (exchanged argument arguments _ ((eq_iff argument "-ip.bind=127.0.0.1").0 e) rest)
      | inr e ↦ rw e (kept argument arguments _ e rest)
    ]

-- The whole command for the namespace of a keeper, by the user and the group asked for.
pub data Runs (text : Text) (keeper : ℕ) (arguments : List String)
    : Option ℕ → Option ℕ → List String → Type 0 where
  as_root :
      Runs text keeper arguments none none
        ("nsenter" ∷ "--target" ∷ text.decimal keeper ∷ "--mount" ∷ "--net" ∷ "--" ∷ arguments)
  as_user :
      (uid gid : ℕ)
      → Runs text keeper arguments (some uid) (some gid) (
          "nsenter"
          ∷ "--target"
          ∷ text.decimal keeper
          ∷ "--mount"
          ∷ "--net"
          ∷ "--"
          ∷ "setpriv"
          ∷ text.concat "--reuid=" (text.decimal uid)
          ∷ text.concat "--regid=" (text.decimal gid)
          ∷ "--clear-groups"
          ∷ "--"
          ∷ arguments)

if_false : {A : Type 0} (b : Bool) (x y : A) → b ≡ false → (if b then x else y) ≡ y
if_false b x y h = rw h refl

module _ {W : Type 0} (os : System W) (text : Text) where
  -- The command runs in the namespace of the keeper, which is alive.
  abbrev pub Inside : Option ℕ → W → List String → Option ℕ → Option ℕ → List String → Type 0
  Inside pid w command uid gid out =
      (keeper : ℕ) × (arguments : List String) × (pid ≡ some keeper)
      × (os.alive keeper w ≡ true)
      × Exposed command arguments
      × Runs text keeper arguments uid gid out

  enter_alive-Runs :
      (keeper : ℕ) (b : Bool) (uid gid : Option ℕ) (arguments out : List String)
      → enter_alive os text keeper b (privileges os text uid gid arguments) ≡ ok out
      → (b ≡ true) × Runs text keeper arguments uid gid out
  enter_alive-Runs keeper false uid gid arguments out h = err_ok_absurd unavailable out h
  enter_alive-Runs keeper true none none arguments out h = (refl, rw (sym (ok-injective h)) as_root)
  enter_alive-Runs keeper true none (some g) arguments out h = err_ok_absurd uid_without_gid out h
  enter_alive-Runs keeper true (some u) none arguments out h = err_ok_absurd uid_without_gid out h
  enter_alive-Runs keeper true (some u) (some g) arguments out h =
      (refl, rw (sym (ok-injective h)) (as_user u g))

  enter_keeper-Inside :
      (pid : Option ℕ) (w : W) (command : List String) (uid gid : Option ℕ) (out : List String)
      → enter_keeper os text pid w (privileges os text uid gid (namespace_visible_command command))
        ≡ ok out
      → Inside pid w command uid gid out
  enter_keeper-Inside none w command uid gid out h = err_ok_absurd unavailable out h
  enter_keeper-Inside (some keeper) w command uid gid out h =
      let (alive, runs) =
        enter_alive-Runs keeper (os.alive keeper w) uid gid (namespace_visible_command command) out
          h in
      (keeper, namespace_visible_command command, refl, alive, command-Exposed command, runs)

  -- In any mode but `disabled`, a command that `enter_command` returns runs in the namespace of the
  -- keeper, which is alive at the time, as the user and group asked for, if any; its arguments are
  -- the given ones, with `-ip.bind=0.0.0.0` for each `-ip.bind=127.0.0.1`; and the state is
  -- unchanged.
  pub enter_command-Inside :
      (command out : List String) (uid gid : Option ℕ) (s : Machine W)
      → str_eq s.worker.mode "disabled" ≡ false
      → (enter_command os text command uid gid s).0 ≡ ok out
      → Inside s.worker.keeper s.world command uid gid out
        × ((enter_command os text command uid gid s).1 ≡ s)
  unfolding enter_command
  enter_command-Inside command out uid gid s m h =
      let found =
        enter_keeper os text s.worker.keeper s.world
          (privileges os text uid gid (namespace_visible_command command)) in
      let same =
        if_false {A = Result GenerationError (List String) × Machine W}
          (str_eq s.worker.mode "disabled") (ok command, s) (found, s) m in
      (
        enter_keeper-Inside s.worker.keeper s.world command uid gid out
            (ap (λ r. r.0) (sym same) ∙ h),
        ap (λ r. r.1) same,
      )
