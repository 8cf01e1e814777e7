-- ===== src/Client/Config/Storage.antt =====
-- What is loaded after a save.
use taildog.Prelude.{refl, ◌≡◌, ◌≢◌, true, none, ok, arith, Option-cases, Bool-cases, inl, inr}
use taildog.Client.Config.{
  Config, Yaml, RoundTrips, Disk, load, save, write, parsed, default_config,
}

-- The calls that a save makes succeed.
pub record IsWritable (d : Disk) : Type 0 where
  pub makes_dir : d.mkdir_ok ≡ true
  pub writes : d.write_ok ≡ true

module _ (y : Yaml) (sound : RoundTrips y) (c : Config) (d : Disk) where
  -- A configuration that was saved is the one that is loaded, where the file can be read.
  pub load-save : d.readable ≡ true → (save y c d).0 ≡ ok tt → load y (save y c d).1 ≡ ok c
  unfolding save write load parsed
  load-save r e = elim (Option-cases (y.marshal c)) [
    | inl n ↦ ground (arith, n)
    | inr (bytes, m) ↦ ground (arith, m, sound.unmarshal-marshal c default_config bytes m)
  ]

module _ (y : Yaml) (c : Config) (d : Disk) where
  pub save-IsWritable :
      (save y c d).0 ≡ ok tt → IsWritable (save y c d).1 × ((save y c d).1.readable ≡ d.readable)
  unfolding save write
  save-IsWritable e = elim (Bool-cases d.mkdir_ok) [
    | inr n ↦ absurd (ground (arith, n, e))
    | inl m ↦ elim (Option-cases (y.marshal c)) [
      | inl n ↦ absurd (ground (arith, m, n, e))
      | inr (bytes, z) ↦ elim (Bool-cases d.write_ok) [
        | inr n ↦ absurd (ground (arith, m, z, n, e))
        | inl w ↦ rw (m, z, w) (record { makes_dir = refl; writes = refl }, refl)
      ]
    ]
  ]

  pub IsWritable-save : IsWritable d → y.marshal c ≢ none → (save y c d).0 ≡ ok tt
  unfolding save write
  IsWritable-save w some_bytes = elim (Option-cases (y.marshal c)) [
    | inl n ↦ absurd (some_bytes n)
    | inr (bytes, z) ↦ rw (w.makes_dir, z, w.writes) refl
  ]
