-- ===== src/Server/Path/Append.antt =====
-- ".." in a path that is put together from names.
use ubuntu_insights.Base.{Bytes, [], arith, false, ℕ, ◌++◌, ◌==◌, ◌∷◌, ◌≡◌}
use ubuntu_insights.Server.Path.{contains, dot_dot, has_prefix}

-- Between two names that hold no "..", a byte that is no dot makes none.
pub contains-append :
    (a b : Bytes) (c : ℕ)
    → (c == b'.') ≡ false
    → contains a dot_dot ≡ false
    → contains b dot_dot ≡ false
    → contains (a ++ (c ∷ b)) dot_dot ≡ false
unfolding contains has_prefix
contains-append [] b c h ha hb = ground arith
contains-append (x ∷ []) b c h ha hb = ground arith
contains-append (x ∷ y ∷ a) b c h ha hb = ground (arith, contains-append (y ∷ a) b c h)
