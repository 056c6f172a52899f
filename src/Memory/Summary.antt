-- ===== src/Memory/Summary.antt =====
-- What a pass that compresses leaves in the working memory.
use motoro.Prelude.{
  ℕ, ◌-◌, ◌/◌, max, ◌≤◌, ◌<◌, lt→ltb, String, eq_text, true, false, List, [], ◌∷◌, ◌++◌, put, take,
  map, drop, length, length-take, has, All, if-cases, ◌≡◌, refl, sym, ap, ◌∙◌, arith, subst, Option,
  none, some, ◌==◌,
}
use motoro.Prelude.Sorting.{sort, insert_sorted, le_key}
use motoro.Runtime.Types.{Outcome, returned, raised}
use motoro.Memory.Entries.{
  Entry, summary, provenance, summarization, MemoryConfig, Store, values, get_entries, total_tokens,
  estimate_tokens,
}
use motoro.Memory.Strategy.{
  compress, compress_some, older_half, evict_by, evict, ids, delete_all, World, summary_entry,
  replace_by, compress_with, perform, run_strategy,
}
use motoro.Memory.Keyed.{
  Keyed, insert, ids-outside, All-outside, delete_all-Keyed, get_entries-delete_all,
}

-- The latest entry comes last.
insert-last :
    (x y : Entry) (xs : List Entry)
    → x.timestamp ≤ y.timestamp
    → insert x (xs ++ y ∷ []) ≡ insert x xs ++ y ∷ []
unfolding insert_sorted
insert-last x y [] h = ground (arith, h)
insert-last x y (z ∷ xs) h = ground (arith, insert-last x y xs h)

sort-last :
    (y : Entry) (xs : List Entry)
    → All (λ x. x.timestamp ≤ y.timestamp) xs
    → sort (le_key (λ e. e.timestamp)) (xs ++ y ∷ [])
      ≡ sort (le_key (λ e. e.timestamp)) xs ++ y ∷ []
unfolding sort insert_sorted
sort-last y [] h = refl
sort-last y (x ∷ xs) h =
    ap (λ es. insert x es) (sort-last y xs h.1)
    ∙ insert-last x y (sort (le_key (λ e. e.timestamp)) xs) h.0

ids-last :
    (xs : List Entry) (e : Entry) (k : String)
    → has (ids xs) k ≡ false
    → (e.id == k) ≡ false
    → has (ids (xs ++ e ∷ [])) k ≡ false
ids-last [] e k n m = ground (arith, m)
ids-last (x ∷ xs) e k n m = ground (arith, n, ids-last xs e k (ground (arith, n)) m)

put-last :
    (store : Store) (e : Entry)
    → Keyed store
    → has (ids (values store)) e.id ≡ false
    → Keyed (put store e.id e) × (values (put store e.id e) ≡ values store ++ e ∷ [])
unfolding put
put-last [] e h n = ((refl, refl, tt), refl)
put-last ((k, f) ∷ store) e h n =
    let (d, v) = put-last store e h.2 (ground (arith, n)) in
    if-cases (λ (s : Store). Keyed s × (values s ≡ f ∷ (values store ++ e ∷ []))) (k == e.id)
      ((k, e) ∷ store) ((k, f) ∷ put store e.id e)
      (λ i.
        absurd (ground (arith, i, n, h.0, eq_text.equal_iff k e.id, eq_text.equal_iff f.id e.id)))
      (λ i. (
        (
          h.0,
          ap (λ es. has (ids es) f.id) v
              ∙ ids-last (values store) e f.id h.1
                  (ground (arith, n, eq_text.equal_iff f.id e.id, eq_text.equal_iff e.id f.id)),
          d,
        ),
        ap (λ es. f ∷ es) v,
      ))

-- The summary of these entries: a new entry with the text of the summarizer, the estimate of its
-- tokens and the time of now, whose metadata tell the number of the entries and their ids.
abbrev pub Summarizes : World → List Entry → String → Entry → Type 0
Summarizes world old text s =
    (s.id ≡ world.new_id)
    × (s.kind ≡ summary)
    × (s.content ≡ text)
    × (s.token_estimate ≡ estimate_tokens world.encode text)
    × (s.timestamp ≡ world.now)
    × (s.metadata ≡ provenance (length old) (map (λ e. e.id) old))

-- After a pass that has compressed the first `n` entries, which the summarizer makes this of: if it
-- raises, so does the pass, and nothing has changed.
abbrev pub Compressed : World → ℕ → Store → Outcome String → Option String × Store → Type 0
Compressed world n store (raised x) (e, store') = (e ≡ some x) × (store' ≡ store)
Compressed world n store (returned text) (e, store') =
    (e ≡ none)
    × Keyed store'
    × ((s : Entry) × Summarizes world (take n (get_entries store)) text s
        × (get_entries store' ≡ drop n (get_entries store) ++ s ∷ []))

replace_by-Compressed :
    (world : World) (n : ℕ) (store : Store) (made : Outcome String)
    → Keyed store
    → has (ids (values store)) world.new_id ≡ false
    → All (λ e. e.timestamp ≤ world.now) (values store)
    → Compressed world n store made (replace_by world (take n (get_entries store)) made store)
unfolding replace_by get_entries summary_entry
replace_by-Compressed world n store (raised x) h fresh latest = (refl, refl)
replace_by-Compressed world n store (returned text) h fresh latest =
    let old = take n (get_entries store) in
    let s = summary_entry world old text in
    let left = delete_all (ids old) store in
    let (k, v) = delete_all-Keyed (ids old) store h in
    let absent : has (ids (values left)) s.id ≡ false =
      ap (λ es. has (ids es) s.id) v ∙ ids-outside (ids old) (values store) s.id fresh in
    let (k', v') = put-last left s k absent in
    let earlier : All (λ e. e.timestamp ≤ s.timestamp) (values left) =
      subst (All (λ e. e.timestamp ≤ s.timestamp)) (sym v)
        (All-outside (λ e. e.timestamp ≤ s.timestamp) (ids old) (values store) latest) in
    (
      refl,
      k',
      (
        s,
        (refl, refl, refl, refl, refl, refl),
        ap (sort (le_key (λ e. e.timestamp))) v'
            ∙ sort-last s (values left) earlier
            ∙ ap (λ es. es ++ s ∷ []) (get_entries-delete_all n store h).1,
      ),
    )

compress_some_all : (old : List Entry) → 0 < length old → compress_some old ≡ compress old
compress_some_all [] l = absurd (omega (arith, l))
compress_some_all (e ∷ es) l = refl

length-older_half : (entries : List Entry) → 1 < length entries → 0 < length (older_half entries)
length-older_half entries l =
    omega (arith, l, length-take (length entries - max 1 (length entries / 2)) entries)

over_budget :
    (config : MemoryConfig) (entries : List Entry)
    → config.token_budget < total_tokens entries
    → 1 < length entries
    → evict_by summarization config true entries ≡ compress (older_half entries)
unfolding evict_by
over_budget config entries b l =
    rw (lt→ltb config.token_budget (total_tokens entries) b)
      (compress_some_all (older_half entries) (length-older_half entries l))

-- With more tokens than the budget and more than one entry, a pass of the summarization puts one
-- summary in the place of the older half of the entries: a new entry of the kind summary with the
-- summarizer's text, the number of those entries and their ids, which comes after the entries that
-- stay, if its time is the latest and its id new; where the summarizer raises, the
-- pass raises the same and changes nothing.
pub run_strategy-Compressed :
    (config : MemoryConfig) (world : World) (store : Store)
    (summarize : List Entry → Outcome String)
    → config.strategy ≡ summarization
    → world.summarize ≡ some summarize
    → Keyed store
    → has (ids (values store)) world.new_id ≡ false
    → All (λ e. e.timestamp ≤ world.now) (values store)
    → config.token_budget < total_tokens (get_entries store)
    → 1 < length (get_entries store)
    → let entries = get_entries store in
      let n = length entries - max 1 (length entries / 2) in
      Compressed world n store (summarize (take n entries)) (run_strategy config world store)
unfolding run_strategy evict perform compress_with
run_strategy-Compressed config world store summarize s w h fresh latest b l =
    let entries = get_entries store in
    rw (s, w, over_budget config entries b l)
      (replace_by-Compressed world (length entries - max 1 (length entries / 2)) store _ h fresh
        latest)
