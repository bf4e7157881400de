-- ===== src/Tests/Setting.antt =====
-- Concrete worlds and components for the tests.
use ubuntu_insights.Base.{
  Bool, Bytes, Option, [], ap, bytes_dec, codes, false, if◌then◌else◌, is_nil, none, not, refl,
  same_bytes, some, sym, true, ◌∷◌, ◌≡◌,
}
use ubuntu_insights.Base.Int.{pos}
use ubuntu_insights.Consent.{Manager, get_state, new_with_system_config}
use ubuntu_insights.Env.{Env, HasTomlRoundTrip}
use ubuntu_insights.Report.{Report}
use ubuntu_insights.System.Calm.{IsCalm}
use ubuntu_insights.System.World.{FilePath, Tree, World, dir, file, status}
use ubuntu_insights.Uploader.{Uploader, default_options}

-- A world in which no call fails and the server accepts everything.
abbrev pub world_of : Tree → World
world_of t = record {
  tree = t;
  fault = λ n. false;
  calls = 0;
  reply = λ n. status 202;
  posts = [];
  random = λ n. n;
  draws = 0;
  slept = [];
  rows = [];
}

pub world_of-IsCalm : (t : Tree) → IsCalm (world_of t)
unfolding IsCalm
world_of-IsCalm t k = refl

-- A file format that writes one digit for a Boolean, whatever the key.
abbrev pub digit : Bool → Bytes
digit false = codes "0"
digit true = codes "1"

abbrev pub digit_value : Bytes → Option Bool
digit_value b =
    if same_bytes b (codes "0")
    then some false
    else if same_bytes b (codes "1")
    then some true
    else none

abbrev pub digit_env : Env
digit_env = record {
  json_valid = λ b. not (is_nil b);
  toml_encode = λ key v. some (digit v);
  toml_decode = λ key b. digit_value b;
  goos = codes "linux";
}

some_value : Option Bytes → Option Bool
some_value none = none
some_value (some b) = digit_value b

digit_back : (v : Bool) (b : Bytes) → some (digit v) ≡ some b → digit_value b ≡ some v
unfolding some_value bytes_dec
digit_back false b e = sym (ap some_value e)
digit_back true b e = sym (ap some_value e)

pub digit_env-HasTomlRoundTrip : HasTomlRoundTrip digit_env
digit_env-HasTomlRoundTrip = record { decode-encode = λ key v b e. digit_back v b e }

abbrev pub consent_dir : FilePath
consent_dir = codes "consent" ∷ []

abbrev pub system_dir : FilePath
system_dir = codes "etc" ∷ []

abbrev pub cache_dir : FilePath
cache_dir = codes "cache" ∷ []

-- The manager of the program, with a system configuration.
abbrev pub system_manager : Manager
system_manager = new_with_system_config consent_dir system_dir

abbrev pub linux : Bytes
linux = codes "linux"

-- Consent granted, no opt-out.
abbrev pub granted_tree : Tree
granted_tree =
    (consent_dir, dir)
    ∷ (codes "linux-consent.toml" ∷ consent_dir, file (codes "1"))
    ∷ (system_dir, dir)
    ∷ (codes "system-config.toml" ∷ system_dir, file (codes "0"))
    ∷ []

-- Consent granted, but the system opts out; a report is waiting.
abbrev pub opted_out_tree : Tree
opted_out_tree =
    (consent_dir, dir)
    ∷ (codes "linux-consent.toml" ∷ consent_dir, file (codes "1"))
    ∷ (system_dir, dir)
    ∷ (codes "system-config.toml" ∷ system_dir, file (codes "1"))
    ∷ []

abbrev pub linux_uploader : Uploader
linux_uploader = record {
  consent = get_state digit_env system_manager;
  min_age = 0;
  dry_run = false;
  cache_dir = cache_dir;
  options = default_options;
  json_valid = digit_env.json_valid;
  now = λ r. pos 1000;
  order = λ rs. rs;
  source_order = λ s. s;
}

-- A directory of two reports.
abbrev pub reports_dir : FilePath
reports_dir = codes "local" ∷ []

abbrev pub two_reports : Tree
two_reports =
    (reports_dir, dir)
    ∷ (codes "10.json" ∷ reports_dir, file (codes "{}"))
    ∷ (codes "20.json" ∷ reports_dir, file (codes "{}"))
    ∷ []

abbrev pub report_10 : Report
report_10 = record {
  path = codes "10.json" ∷ reports_dir;
  name = codes "10.json";
  time_stamp = pos 10;
  stash_path = [];
  stash_data = [];
}
