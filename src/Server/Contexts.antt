-- ===== src/Server/Contexts.antt =====
-- The two contexts of a service, in server/internal/ingest/ingest.go and
-- server/internal/webservice/webservice.go: gracefulCtx is derived from ctx, so it is done when
-- either is canceled.
use ubuntu_insights.Base.{Bool, false, true, ◌||◌}
use ubuntu_insights.System.World.{Status}

pub record Contexts : Type 0 where
  pub canceled : Bool
  pub graceful_canceled : Bool

-- <-s.ctx.Done() and <-s.gracefulCtx.Done() would not block.
abbrev pub is_done : Contexts → Bool
is_done c = c.canceled

abbrev pub is_graceful_done : Contexts → Bool
is_graceful_done c = c.canceled || c.graceful_canceled

-- s.cancel and s.gracefulCancel
abbrev pub cancel : Contexts → Contexts
cancel c = record c { canceled = true }

abbrev pub graceful_cancel : Contexts → Contexts
graceful_cancel c = record c { graceful_canceled = true }

-- What New makes of a context that is not done.
abbrev pub fresh_contexts : Contexts
fresh_contexts = record { canceled = false; graceful_canceled = false }

-- A goroutine: not started, running, or ended with what it returned.
pub data Part : Type 0 where
  unstarted running : Part
  ended : Status → Part

abbrev pub HasEnded : Part → Type 0
HasEnded unstarted = ⊥
HasEnded running = ⊥
HasEnded (ended r) = Unit
