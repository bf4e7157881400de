-- ===== src/SystemConfig/Stored.antt =====
-- What Config.write and CFile.write leave on disk.
use ubuntu_insights.Base.{
  Bool, Bytes, Option, arith, codes, ite, none, refl, some, ℕ, ◌∷◌, ◌≡◌, ◌≢◌,
}
use ubuntu_insights.Consent.Laws.{Decodes}
use ubuntu_insights.Env.{Env, HasTomlRoundTrip, or_plain}
use ubuntu_insights.FileUtils.{atomic_write, write_file_with_perm}
use ubuntu_insights.FileUtils.Atomic.{atomic_write-done, temp_path}
use ubuntu_insights.FileUtils.Temp.{ne-temp_path}
use ubuntu_insights.System.Files.{mkdir_all, node_at}
use ubuntu_insights.System.Files.Laws.{mkdir_all_keeps}
use ubuntu_insights.System.Steps.{bind_elim}
use ubuntu_insights.System.World.{FilePath, Node, World, done, file, hiding, lift, ok, path_dec}
use ubuntu_insights.SystemConfig.{
  config_file, set_opt_out, system_config_file_name, system_opt_out_key, write_toml,
}

or_plain-eq_ok : (o : Option Bytes) (b : Bytes) → or_plain o ≡ ok b → o ≡ some b
or_plain-eq_ok none b h = cc
or_plain-eq_ok (some c) b h = ground arith

module _ (env : Env) (key n : Bytes) (d : FilePath) (v : Bool) (dir_perm file_perm : ℕ)
    (ne_temp : (w : World) → n ∷ d ≢ temp_path (n ∷ d) w) where
  written_node :
      (w : World) (b : Bytes) (q : FilePath)
      → (atomic_write (n ∷ d) b file_perm w).0 ≡ done
      → node_at q (atomic_write (n ∷ d) b file_perm w).1.tree
        ≡ ite (path_dec q (n ∷ d)) (some (file b)) (node_at q w.tree)
  written_node w b q = atomic_write-done n d b file_perm w q (ne_temp w)

  -- The node of a path after a write that returned no error: the encoded value, or what it was.
  write_toml-Node :
      (C : World → Type 0) (w : World)
      → ((b : Bytes) (w1 : World)
          → env.toml_encode key v ≡ some b
          → w1 ≡ (mkdir_all d w).1
          → (atomic_write (n ∷ d) b file_perm w1).0 ≡ done
          → C (atomic_write (n ∷ d) b file_perm w1).1)
      → (write_toml env key dir_perm file_perm (n ∷ d) v w).0 ≡ done
      → C (write_toml env key dir_perm file_perm (n ∷ d) v w).1
  unfolding write_toml write_file_with_perm
  write_toml-Node C w wrote =
      bind_elim (λ r w'. r ≡ done → C w') (lift (or_plain (env.toml_encode key v))) _ w
        (λ b e.
          bind_elim (λ r w'. r ≡ done → C w') (hiding (mkdir_all d)) _ w
            (λ _ _. wrote b (mkdir_all d w).1 (or_plain-eq_ok _ b e) refl)
            (λ f _ h. absurd (ground arith)))
        (λ f _ h. absurd (ground arith))

  -- A write that returns no error leaves a file that decodes to what was written.
  pub write_toml-Decodes :
      (w : World)
      → HasTomlRoundTrip env
      → (write_toml env key dir_perm file_perm (n ∷ d) v w).0 ≡ done
      → Decodes env key (n ∷ d) v (write_toml env key dir_perm file_perm (n ∷ d) v w).1
  write_toml-Decodes w laws =
      write_toml-Node (Decodes env key (n ∷ d) v) w (λ b w1 e _ h.
        (b, ground (arith, written_node w1 b (n ∷ d) h), laws.decode-encode key v b e))

  -- Every other node that was there stays.
  pub write_toml_keeps :
      (w : World) (q : FilePath) (a : Node)
      → q ≢ n ∷ d
      → node_at q w.tree ≡ some a
      → (write_toml env key dir_perm file_perm (n ∷ d) v w).0 ≡ done
      → node_at q (write_toml env key dir_perm file_perm (n ∷ d) v w).1.tree ≡ some a
  write_toml_keeps w q a ne at =
      write_toml-Node (λ w'. node_at q w'.tree ≡ some a) w
        (λ b w1 e same h.
          let kept : node_at q w1.tree ≡ some a = rw same (mkdir_all_keeps d q a w at) in
          ground (arith, written_node w1 b q h))

-- The system configuration's file is not named like a temporary one.
config_file-ne-temp : (d : FilePath) (w : World) → config_file d ≢ temp_path (config_file d) w
config_file-ne-temp d w = ne-temp_path (codes "system") (codes "config.toml") b'-' d w (omega arith)

-- A SetOptOut that returns no error leaves a configuration that says what was set.
pub set_opt_out-Decodes :
    (env : Env)
    → HasTomlRoundTrip env
    → (d : FilePath) (v : Bool) (w : World) → (set_opt_out env d v w).0 ≡ done
    → Decodes env system_opt_out_key (config_file d) v (set_opt_out env d v w).1
unfolding set_opt_out
set_opt_out-Decodes env laws d v w =
    write_toml-Decodes env system_opt_out_key system_config_file_name d v 0o755 0o644
      (config_file-ne-temp d) w laws
