-- ===== src/Orchestrator/Metadata.antt =====
-- What of a result's `run_metadata` the plain runtime and the orchestrator share.
use motoro.Prelude.{
  ℕ, String, eq_text, false, ◌==◌, Option, none, some, [], ◌∷◌, Dict, put, remove, remove-put_same,
  remove-put_other, ◌≡◌, refl, ap, ◌∙◌, arith,
}
use motoro.Runtime.Context.{RunContext, Meta, text}
use motoro.Runtime.Metadata.{
  MetadataValue, count, keep_scalars, put_count, if_positive, run_metadata_of,
}

-- Without the two keys that the orchestrator alone writes.
abbrev pub without_own : Dict String MetadataValue → Dict String MetadataValue
without_own d = remove (remove d "error") "_heartbeat_failures"

without_own-put_count :
    (key : String) (o : Option ℕ) (d : Dict String MetadataValue)
    → (key == "error") ≡ false
    → (key == "_heartbeat_failures") ≡ false
    → without_own (put_count key o d) ≡ put_count key o (without_own d)
without_own-put_count key none d e h = refl
without_own-put_count key (some n) d e h =
    ap (λ t. remove t "_heartbeat_failures") (remove-put_other d key "error" (count n) e)
    ∙ remove-put_other (remove d "error") key "_heartbeat_failures" (count n) h

without_own-heartbeat :
    (o : Option ℕ) (d : Dict String MetadataValue)
    → without_own (put_count "_heartbeat_failures" o d) ≡ without_own d
without_own-heartbeat none d = refl
without_own-heartbeat (some n) d =
    ap (λ t. remove t "_heartbeat_failures")
      (remove-put_other d "_heartbeat_failures" "error" (count n) refl)
    ∙ remove-put_same (remove d "error") "_heartbeat_failures" (count n)

pub without_own-run_metadata_of :
    (c : RunContext)
    → without_own (run_metadata_of c)
      ≡ put_count "loop_iterations"
          (if_positive c.iteration)
          (put_count "_retry_count" c.retry_count (without_own (keep_scalars c.metadata)))
unfolding run_metadata_of
without_own-run_metadata_of c =
    without_own-put_count "loop_iterations" (if_positive c.iteration) _ refl refl
    ∙ ap (put_count "loop_iterations" (if_positive c.iteration)) (
        without_own-put_count "_retry_count" c.retry_count _ refl refl
        ∙ ap (put_count "_retry_count" c.retry_count)
            (without_own-heartbeat (if_positive c.heartbeat_failures) (keep_scalars c.metadata)))

keep_scalars-put_error :
    (metadata : Dict String Meta) (e : String)
    → remove (keep_scalars (put metadata "error" (text e))) "error"
      ≡ remove (keep_scalars metadata) "error"
unfolding keep_scalars put remove
keep_scalars-put_error [] e = refl
keep_scalars-put_error ((k, v) ∷ metadata) e = ground (arith, keep_scalars-put_error metadata e)

-- A text under "error" makes no difference to the rest.
pub without_own-error :
    (metadata : Dict String Meta) (e : String)
    → without_own (keep_scalars (put metadata "error" (text e)))
      ≡ without_own (keep_scalars metadata)
without_own-error metadata e =
    ap (λ t. remove t "_heartbeat_failures") (keep_scalars-put_error metadata e)
