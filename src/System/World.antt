-- ===== src/System/World.antt =====
-- Go's errors, the world that a process acts on, and actions.
--
-- An error is the list of the sentinel errors that errors.Is finds in its tree: fmt.Errorf with %w
-- keeps them, with %v it drops them, errors.Join appends them. A result is a value or an error;
-- an `error` that may be nil is a result with no value.
use ubuntu_insights.Base.{
  Bool, Bytes, List, Option, [], bytes_dec, false, ite, list_dec, true, ℕ, ◌++◌, ◌∷◌,
}
use ubuntu_insights.Base.Dict.{Dict}
use ubuntu_insights.Base.Int.{ℤ}

pub data Sentinel : Type 0 where
  not_exist : Sentinel
  invalid_report_ext invalid_report_name : Sentinel
  consent_file_not_found report_not_mature send_failure : Sentinel
  duplicate_report sanitize_error source_metrics_error : Sentinel
  no_valid_data unexpected_fields upload_failed database_errors : Sentinel
  canceled teardown_timeout : Sentinel

unfoldable pub Sentinel-discrete : Discrete Sentinel
Sentinel-discrete = hlevel

abbrev pub Error : Type 0
Error = List Sentinel

-- fmt.Errorf with %v, errors.New: nothing to find in it
abbrev pub plain : Error
plain = []

-- errors.Is
abbrev pub is_error : Error → Sentinel → Bool
is_error [] s = false
is_error (t ∷ e) s = ite (Sentinel-discrete s t) true (is_error e s)

pub data Result {ℓ} (A : Type ℓ) : Type ℓ where
  ok : A → Result A
  err : Error → Result A

-- The result of a function that returns just an error.
abbrev pub Status : Type 0
Status = Result (Unit {0})

abbrev pub done : Status
done = ok tt

-- errors.Is(err, s), which is false on nil
abbrev pub fails_with {ℓ} : {A : Type ℓ} → Result A → Sentinel → Bool
fails_with (ok a) s = false
fails_with (err e) s = is_error e s

abbrev pub is_ok {ℓ} : {A : Type ℓ} → Result A → Bool
is_ok (ok a) = true
is_ok (err e) = false

-- errors.Join of two errors, each of which may be nil
abbrev pub join : Status → Status → Status
join (ok a) s = s
join (err e) (ok a) = err e
join (err e) (err f) = err (e ++ f)

-- fmt.Errorf("...: %v", err)
abbrev pub opaque {ℓ} : {A : Type ℓ} → Result A → Result A
opaque (ok a) = ok a
opaque (err e) = err plain

-- A cleaned path, its last element first: `filepath.Join(d, n)` is `n ∷ d`, `filepath.Dir` is the
-- tail, `filepath.Base` the head, and `[]` is the root that all paths start from.
abbrev pub FilePath : Type 0
FilePath = List Bytes

unfoldable pub path_dec : Discrete FilePath
unfolding bytes_dec list_dec
path_dec = list_dec bytes_dec

pub data Node : Type 0 where
  dir : Node
  file : Bytes → Node

abbrev pub Tree : Type 0
Tree = Dict FilePath Node

-- One request that was sent, and what came of it: no response, or a status code.
pub record Post : Type 0 where
  pub url : FilePath
  pub payload : Bytes

pub data Reply : Type 0 where
  unreachable : Reply
  status : ℕ → Reply

-- A row of a database: the names of its columns, with what they hold. `moment` is a time in seconds
-- since 1970, `json` a JSON text or NULL, and `document` a legacy report with its fields.
pub data Cell : Type 0 where
  text : Bytes → Cell
  moment : ℤ → Cell
  flag : Bool → Cell
  json : Option Bytes → Cell
  document : Bool → Option Bytes → Cell

abbrev pub Row : Type 0
Row = List (Bytes × Cell)

-- `fault n` says whether the n-th system call fails, whatever its arguments; `reply n` is the
-- server's answer to the n-th request; `random n` is the n-th number that is drawn,
-- `slept` lists the pauses, in nanoseconds, and `rows` the rows that were inserted into the
-- database, each with its table, the oldest first.
pub record World : Type 0 where
  pub tree : Tree
  pub fault : ℕ → Bool
  pub calls : ℕ
  pub reply : ℕ → Reply
  pub posts : List Post
  pub random : ℕ → ℕ
  pub draws : ℕ
  pub slept : List ℕ
  pub rows : List (Bytes × Row)

abbrev pub Io {ℓ} : Type ℓ → Type ℓ
Io A = World → Result A × World

module _ {ℓ} {A : Type ℓ} where
  abbrev pub pure : A → Io A
  pure a w = (ok a, w)

  abbrev pub raise : Error → Io A
  raise e w = (err e, w)

  abbrev pub lift : Result A → Io A
  lift r w = (r, w)

  -- The action's result as a value, for code that goes on after an error.
  abbrev pub attempt : Io A → Io (Result A)
  attempt m w = let (r, w') = m w in (ok r, w')

  -- return fmt.Errorf("...: %v", err) on an error
  abbrev pub hiding : Io A → Io A
  hiding m w = let (r, w') = m w in (opaque r, w')

module _ {ℓ κ} {A : Type ℓ} {B : Type κ} where
  abbrev pub continue : Result A → (A → Io B) → Io B
  continue (ok a) f w = f a w
  continue (err e) f w = (err e, w)

infixl 5 ◌>>=◌ ◌>>◌
abbrev pub ◌>>=◌ {ℓ κ} : {A : Type ℓ} {B : Type κ} → Io A → (A → Io B) → Io B
◌>>=◌ m f w = let (r, w') = m w in continue r f w'

abbrev pub ◌>>◌ {κ} : {B : Type κ} → Io (Unit {0}) → Io B → Io B
m >> n = m >>= λ _. n

-- time.Sleep
abbrev pub sleep : ℕ → Io (Unit {0})
sleep t w = (done, record w { slept = w.slept ++ (t ∷ []) })
