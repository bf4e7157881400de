-- ===== src/SysInfo/Machine.antt =====
-- What the collectors ask the machine for, besides its files: commands (cmdutils.RunWithTimeout of
-- insights/internal/cmdutils/cmd.go) and the environment.
use ubuntu_insights.Base.{Bytes, List, Option, [], none, some}
use ubuntu_insights.System.World.{FilePath, Io, Status, World, ok}

-- What a command wrote, and how it ended.
pub record Output : Type 0 where
  pub stdout : Bytes
  pub stderr : Bytes
  pub status : Status

pub record Machine : Type 0 where
  pub root : FilePath
  pub goos : Bytes
  pub goarch : Bytes
  pub run : List Bytes → World → Output × World
  pub getenv : Bytes → Option Bytes

-- The results of a command, which the collectors look at even when it failed
abbrev pub command : Machine → List Bytes → Io Output
command m args w = let (o, w') = m.run args w in (ok o, w')

-- os.Getenv: "" if it is not set
abbrev pub or_empty : Option Bytes → Bytes
or_empty none = []
or_empty (some b) = b
