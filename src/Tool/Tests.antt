-- ===== src/Tool/Tests.antt =====
-- Runs of the tools on concrete files, and the witnesses of what is proved about them.
use fabric_common.Base.{
  ◌<◌, ◌≡◌, refl, ap, inl, inr, true, some, [], ◌∷◌, ◌++◌, arith, Text, codes, text_eq, text_eq_iff,
  length, length-append, Bool-cases, none, false,
}
use fabric_common.Base.Result.{Result, ok, err}
use fabric_common.Base.Decimal.{print_int}
use fabric_common.Endorsement.Check.{Bytes}
use fabric_common.Tool.Disk.{
  Disk, read_file, CreateTmp, IsFresh, path_exists, write_file, path_exists-write_file,
}
use fabric_common.Tool.Command.{new_bin_manager, check_binaries, start_server_cmd, build_cmd}
use fabric_common.Tool.Translator.{compute_update}
use fabric_common.Tool.Translator.Laws.{Settled, KeepsFiles, compute_update-Settled}
use fabric_common.Tool.Peer.{Process, sign_configtx}
use fabric_common.Tool.Package.{calculate_id, new_package}
use fabric_common.Tool.Peer.Laws.{Left, sign_configtx-Left}

-- A name that is longer than every name in use.
abbrev long_name : Disk → Text
long_name [] = 120 ∷ []
long_name ((q, b) ∷ d) = 120 ∷ (q ++ long_name d)

shorter : (p : Text) (d : Disk) → path_exists p d ≡ true → length p < length (long_name d)
unfolding path_exists
shorter p [] h = absurd (cc)
shorter p ((q, b) ∷ d) h = elim (Bool-cases (text_eq q p)) [
  | inl t ↦
      let same : q ≡ p = ground (arith, text_eq_iff q p) in
      let long = length-append q (long_name d) in omega (arith, long, ap length same)
  | inr f ↦ omega (arith, length-append q (long_name d), shorter p d (rw f at h))
]

abbrev create : CreateTmp
create x d = (long_name d, write_file (long_name d) [] d)

create-fresh : IsFresh create
create-fresh = record {
  path_exists-before = λ x d. elim (Bool-cases (path_exists (long_name d) d)) [
    | inl t ↦ absurd (omega (arith, shorter (long_name d) d t))
    | inr f ↦ f
  ];
  path_exists-after = λ x d q. path_exists-write_file (long_name d) q [] d;
}

abbrev resolve : Text → Text → Text
resolve dir name = dir ++ b'/' ∷ name

-- A run in which nothing differs.
abbrev no_difference : Text → Disk → Result Text (Unit {0}) × Disk
no_difference command d = (err (codes "no differences"), d)

no_difference-keeps : KeepsFiles no_difference
no_difference-keeps command d q = refl

compute_update-Settled_example :
    Settled create no_difference create-fresh no_difference-keeps [] 3
      (compute_update create no_difference resolve (codes "/bin") (codes "ch") [] [] [])
compute_update-Settled_example =
    compute_update-Settled create no_difference create-fresh no_difference-keeps resolve
      (codes "/bin") (codes "ch") [] [] []

abbrev bare : Process
bare = record { env = []; disk = [] }

abbrev create_dir : Disk → Text × Disk
create_dir d = (codes "/tmp/d", d)

abbrev remove_dir : Text → Disk → Disk
remove_dir dir d = d

abbrev fails : Text → Process → Result Text Bytes × Disk
fails command p = (err (codes "no MSP"), p.disk)

sign_configtx-Left_example :
    Left create_dir remove_dir resolve fails
      (codes "/bin")
      (codes "/tmp/d")
      (codes "org1MSP")
      (codes "/msp")
      (sign_configtx create_dir remove_dir resolve fails
        (codes "/bin")
        (codes "update.pb")
        (codes "org1MSP")
        (codes "/msp")
        bare)
sign_configtx-Left_example =
    sign_configtx-Left create_dir remove_dir resolve fails (codes "/bin") (codes "update.pb")
      (codes "org1MSP") (codes "/msp") bare

-- A directory with one binary of the ten is taken.
one_binary :
    new_bin_manager (λ p. some (codes "configtxgen" ∷ [])) (codes "/bin") ≡ ok (codes "/bin")
unfolding new_bin_manager check_binaries
one_binary = refl

-- Two domains run into one option.
two_domains :
    start_server_cmd resolve (codes "/bin") (codes "h") 1 (codes "a" ∷ codes "b" ∷ [])
    ≡ codes "/bin/configtxlator start --hostname=h --port=1 --CORS=a--CORS=b"
unfolding start_server_cmd build_cmd print_int
two_domains = refl

-- The id of a package that no tool reads.
package_by_digest :
    (calculate_id {X = Text}
      (λ b. codes "00ff")
      (λ command p. (err (codes "no shell"), p))
      (new_package (codes "/cc") [] (codes "diagnose"))
      (codes "cc.tgz")
      none
      false
      record { env = []; disk = (codes "cc.tgz", 1 ∷ []) ∷ [] }).0
    ≡ ok (codes "diagnose:00ff")
unfolding calculate_id new_package read_file
package_by_digest = refl
