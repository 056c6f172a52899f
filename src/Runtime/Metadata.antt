-- ===== src/Runtime/Metadata.antt =====
-- The `run_metadata` of a result: the end of `AgentRuntime.run` in engine/runtime.py, and the same
-- at the end of `PatternOrchestrator.run` in engine/patterns/orchestrator.py.
use motoro.Prelude.{
  ℕ, ltb, String, eq_text, Bool, true, false, not, ◌==◌, ◌&&◌, Option, none, some, [], ◌∷◌, Dict,
  put, if◌then◌else◌,
}
use motoro.Runtime.Context.{RunContext, Meta, null, text, scalar, other, names, object}

-- A value of the context's metadata, or one of the counters that the context has fields for.
pub data MetadataValue : Type 0 where
  given : Meta → MetadataValue
  count : ℕ → MetadataValue

-- isinstance(v, (str, int, float, bool))
abbrev pub is_scalar : Meta → Bool
is_scalar null = false
is_scalar (text s) = true
is_scalar (scalar s) = true
is_scalar (other s) = false
is_scalar (names ns s) = false
is_scalar (object json s) = false

unfoldable pub keep_scalars : Dict String Meta → Dict String MetadataValue
keep_scalars [] = []
keep_scalars ((k, v) ∷ metadata) =
    let rest = keep_scalars metadata in
    if not (k == "_runtime") && is_scalar v then (k, given v) ∷ rest else rest

abbrev pub put_count : String → Option ℕ → Dict String MetadataValue → Dict String MetadataValue
put_count key none metadata = metadata
put_count key (some n) metadata = put metadata key (count n)

-- A counter that is there only when it is above 0.
abbrev pub if_positive : ℕ → Option ℕ
if_positive n = if ltb 0 n then some n else none

-- The counters are whole numbers and so are kept. The order of the keys is not that of the source.
unfoldable pub run_metadata_of : RunContext → Dict String MetadataValue
unfolding keep_scalars put
run_metadata_of c = put_count "loop_iterations" (if_positive c.iteration) (
    put_count "_retry_count" c.retry_count (
      put_count "_heartbeat_failures" (if_positive c.heartbeat_failures) (keep_scalars c.metadata)))
