-- ===== src/RunLog/Cleanup/Laws.antt =====
-- Cleanup removes log files only, and the oldest ones until the total fits.
use cronbat.Prelude.{
  get_elem?, subst, ℕ, zero, suc, ◌+◌, ◌-◌, ◌≤◌, ◌<◌, ◌≡◌, refl, sym, ap, ◌∙◌, inl, inr, Bool, true,
  false, not, Bool-cases, Option, none, some, List, [], ◌∷◌, ◌++◌, arith, ltb, leb, ◌==◌,
  if◌then◌else◌, take, drop,
}
use cronbat.Text.{Text, text_eq}
use cronbat.Text.Laws.{text_eq→eq}
use cronbat.Dict.{lookup, remove, lookup-remove}
use cronbat.Errors.{Error, Result, ok, err}
use cronbat.World.{World, Disk, missing, remove_file}
use cronbat.RunLog.Cleanup.{
  older, FileInfo, Found, is_log, sum_sizes, walk, left_over, evict, walked, cleanup,
}

abbrev pub AllLogs : List FileInfo → Type 0
AllLogs [] = Unit
AllLogs (f ∷ fs) = (is_log f.path ≡ true) × AllLogs fs

-- Removing the files one after the other
unfoldable pub remove_all : World → List FileInfo → Disk → Disk
remove_all w [] d = d
remove_all w (f ∷ fs) d = remove_all w fs (remove_file w f.path d).1

module _ (w : World) where
  -- ------------------------------------------------------------------ the total

  left_over-eq :
      (f : FileInfo) (total : ℕ) (d : Disk)
      → w.remove_fault f.path ≡ none
      → left_over w total f.size (remove_file w f.path d).0 ≡ total - f.size
  unfolding remove_file
  left_over-eq f total d fine = by_fault (w.remove_fault f.path) fine (lookup f.path d)
    where
      by_fault :
          (e : Option Error)
          → e ≡ none
          → (o : Option Text)
          → left_over w total f.size
              (elim e as (λ x. Result (Unit {0}) × Disk) [
                | some e' ↦ (err e', d)
                | none ↦ elim o as (λ x. Result (Unit {0}) × Disk) [
                  | none ↦ (err missing, d)
                  | some content ↦ (ok tt, remove f.path d)
                ]
              ]).0
            ≡ total - f.size
      by_fault (some e') is o = absurd (cc)
      by_fault none is none = refl
      by_fault none is (some content) = refl

  least_from :
      {max_total : ℕ} (f : FileInfo) (fs : List FileInfo) (k : ℕ)
      → leb (f.size + sum_sizes fs) max_total ≡ false
      → ((i : ℕ) → i < k → max_total < sum_sizes (drop i fs))
      → (i : ℕ) → i < suc k
      → max_total < sum_sizes (drop i (f ∷ fs))
  unfolding sum_sizes
  least_from f fs k over least zero lt = ground arith
  least_from f fs k over least (suc i) lt = least i (omega arith)

  -- Where every file can be removed, the eviction removes the first `k` files of its list for the
  -- least `k` such that the sizes of the others add up to no more than the limit.
  evict_enough :
      (max_total : ℕ) (files : List FileInfo) (d : Disk)
      → ((path : Text) → w.remove_fault path ≡ none)
      → (k : ℕ) × (evict w max_total (sum_sizes files) files d ≡ remove_all w (take k files) d)
        × (sum_sizes (drop k files) ≤ max_total)
        × ((i : ℕ) → i < k → max_total < sum_sizes (drop i files))
  unfolding evict sum_sizes remove_all
  evict_enough max_total [] d fine = (0, refl, omega arith, λ i lt. absurd (omega arith))
  evict_enough max_total (f ∷ fs) d fine =
      elim (Bool-cases (leb (f.size + sum_sizes fs) max_total)) [
        | inl fits ↦ (0, rw fits refl, ground arith, λ i lt. absurd (omega arith))
        | inr over ↦
            let d' : Disk = (remove_file w f.path d).1 in
            let (k, is, small, least) = evict_enough max_total fs d' fine in
            (
              suc k,
              rw over (
                  ap (λ t. evict w max_total t fs d')
                    (left_over-eq f (f.size + sum_sizes fs) d (fine f.path) ∙ omega arith)
                  ∙ is),
              small,
              least_from f fs k over least,
            )
      ]

  -- ------------------------------------------------------------------ the oldest first

  -- The files after the one at the front stand in its order, as `less` sees it.
  abbrev pub NoneBefore : (FileInfo → FileInfo → Bool) → FileInfo → List FileInfo → Type 0
  NoneBefore less f [] = Unit
  NoneBefore less f (g ∷ gs) = (less g f ≡ false) × NoneBefore less f gs

  -- What sort.Slice promises of its outcome.
  abbrev pub InOrder : (FileInfo → FileInfo → Bool) → List FileInfo → Type 0
  InOrder less [] = Unit
  InOrder less (f ∷ fs) = NoneBefore less f fs × InOrder less fs

  NoneBefore-drop :
      (f : FileInfo) (fs : List FileInfo) (k i : ℕ) (g : FileInfo)
      → NoneBefore (older w) f fs
      → get_elem? (drop k fs) i ≡ some g
      → f.mod_time ≤ g.mod_time
  NoneBefore-drop f [] zero i g none_before at = absurd (cc)
  NoneBefore-drop f [] (suc k) i g none_before at = absurd (cc)
  NoneBefore-drop f (x ∷ xs) zero zero g none_before at =
      let same : x ≡ g = cc in
      subst (λ y. f.mod_time ≤ y.mod_time) same (ground (arith, none_before.0))
  NoneBefore-drop f (x ∷ xs) zero (suc i) g none_before at =
      NoneBefore-drop f xs zero i g none_before.1 at
  NoneBefore-drop f (x ∷ xs) (suc k) i g none_before at =
      NoneBefore-drop f xs k i g none_before.1 at

  -- In a sorted list no file of the front part is younger than one of the rest.
  front_older :
      (fs : List FileInfo) (k i j : ℕ) (f g : FileInfo)
      → InOrder (older w) fs
      → get_elem? (take k fs) i ≡ some f
      → get_elem? (drop k fs) j ≡ some g
      → f.mod_time ≤ g.mod_time
  front_older [] zero i j f g sorted at at' = absurd (cc)
  front_older [] (suc k) i j f g sorted at at' = absurd (cc)
  front_older (x ∷ xs) zero i j f g sorted at at' = absurd (cc)
  front_older (x ∷ xs) (suc k) zero j f g sorted at at' =
      let same : x ≡ f = cc in
      subst (λ y. y.mod_time ≤ g.mod_time) same (NoneBefore-drop x xs k j g sorted.0 at')
  front_older (x ∷ xs) (suc k) (suc i) j f g sorted at at' =
      front_older xs k i j f g sorted.1 at at'

  module _ (sort_slice : (FileInfo → FileInfo → Bool) → List FileInfo → List FileInfo)
      (cutoff max_total : ℕ) (found : List Found) (d d' : Disk) (files : List FileInfo) where
    abbrev sorted : List FileInfo
    sorted = sort_slice (older w) files

    -- Where the walk finds the log files `files` that are young enough, with a limit on their total,
    -- and every file can be removed, `Cleanup` removes the `k` oldest of them and no other of them,
    -- for the least `k` such that the sizes of the others add up to no more than the limit. The
    -- outcome of sort.Slice is in the order that it was given, with the same total.
    pub cleanup_oldest :
        walk w cutoff found [] d ≡ (ok files, d')
        → 0 < max_total
        → ((path : Text) → w.remove_fault path ≡ none)
        → InOrder (older w) sorted
        → sum_sizes sorted ≡ sum_sizes files
        → (k : ℕ) × (cleanup w sort_slice cutoff max_total found d
            ≡ (ok tt, remove_all w (take k sorted) d'))
          × (sum_sizes (drop k sorted) ≤ max_total)
          × ((i : ℕ) → i < k → max_total < sum_sizes (drop i sorted))
          × ((i j : ℕ) (f g : FileInfo)
              → get_elem? (take k sorted) i ≡ some f
              → get_elem? (drop k sorted) j ≡ some g
              → f.mod_time ≤ g.mod_time)
    unfolding cleanup walked remove_all
    cleanup_oldest walks limit fine in_order total =
        let (k, is, small, least) = evict_enough max_total sorted d' fine in
        (
          k,
          subst (λ r. walked w sort_slice max_total r ≡ (ok tt, remove_all w (take k sorted) d'))
              (sym walks) (by_total k is least),
          small,
          least,
          λ i j f g. front_older sorted k i j f g in_order,
        )
      where
        ended : Disk → Result (Unit {0}) × Disk
        ended disk = (ok tt, disk)

        no_zero : (max_total == 0) ≡ false
        no_zero = ground arith

        first :
            (k : ℕ)
            → ((i : ℕ) → i < k → max_total < sum_sizes (drop i sorted))
            → leb (sum_sizes files) max_total ≡ true
            → d' ≡ remove_all w (take k sorted) d'
        first zero least fits = refl
        first (suc k) least fits = absurd (ground (arith, least 0 (omega arith), total))

        by_total :
            (k : ℕ)
            → evict w max_total (sum_sizes sorted) sorted d' ≡ remove_all w (take k sorted) d'
            → ((i : ℕ) → i < k → max_total < sum_sizes (drop i sorted))
            → walked w sort_slice max_total (ok files, d')
              ≡ (ok tt, remove_all w (take k sorted) d')
        by_total k is least = elim (Bool-cases (leb (sum_sizes files) max_total)) [
          | inl fits ↦ rw (no_zero, fits) (ap ended (first k least fits))
          | inr over ↦
              rw (no_zero, over)
                (ap ended (ap (λ t. evict w max_total t sorted d') (sym total) ∙ is))
        ]

  -- ------------------------------------------------------------------ other files

  module _ (path : Text) (other : is_log path ≡ false) where
    remove_log :
        (log : Text) (d : Disk)
        → is_log log ≡ true
        → lookup path (remove_file w log d).1 ≡ lookup path d
    unfolding remove_file
    remove_log log d is = by_fault (w.remove_fault log) (lookup log d)
      where
        apart :
            (b : Bool) → text_eq log path ≡ b → (if b then none else lookup path d) ≡ lookup path d
        apart false e = refl
        apart true e = absurd (cc (sym is ∙ ap is_log (text_eq→eq log path e) ∙ other))

        by_fault :
            (f : Option Error) (o : Option Text)
            → lookup path
                (elim f as (λ x. Result (Unit {0}) × Disk) [
                  | some e ↦ (err e, d)
                  | none ↦ elim o as (λ x. Result (Unit {0}) × Disk) [
                    | none ↦ (err missing, d)
                    | some content ↦ (ok tt, remove log d)
                  ]
                ]).1
              ≡ lookup path d
        by_fault (some e) o = refl
        by_fault none none = refl
        by_fault none (some content) = lookup-remove log path d ∙ apart (text_eq log path) refl

    evict_other :
        (max_total total : ℕ) (files : List FileInfo) (d : Disk)
        → AllLogs files
        → lookup path (evict w max_total total files d) ≡ lookup path d
    unfolding evict
    evict_other max_total total [] d logs = refl
    evict_other max_total total (f ∷ fs) d logs = elim (Bool-cases (leb total max_total)) [
      | inl fits ↦ rw fits refl
      | inr over ↦ rw over (
          evict_other max_total (left_over w total f.size (remove_file w f.path d).0) fs
            (remove_file w f.path d).1 logs.1
          ∙ remove_log f.path d logs.0)
    ]

    LogsOnly : Result (List FileInfo) → Type 0
    LogsOnly (err e) = Unit
    LogsOnly (ok files) = AllLogs files

    AllLogs-append :
        (files : List FileInfo) (f : FileInfo)
        → AllLogs files
        → is_log f.path ≡ true
        → AllLogs (files ++ (f ∷ []))
    AllLogs-append [] f logs is = (is, tt)
    AllLogs-append (x ∷ xs) f logs is = (logs.0, AllLogs-append xs f logs.1 is)

    walk_other :
        (cutoff : ℕ) (found : List Found) (files : List FileInfo) (d : Disk)
        → AllLogs files
        → LogsOnly (walk w cutoff found files d).0
          × (lookup path (walk w cutoff found files d).1 ≡ lookup path d)
    unfolding walk LogsOnly
    walk_other cutoff [] files d logs = (logs, refl)
    walk_other cutoff (Found.walk_error e ∷ rest) files d logs = (tt, refl)
    walk_other cutoff (Found.folder ∷ rest) files d logs = walk_other cutoff rest files d logs
    walk_other cutoff (Found.file p (err e) ∷ rest) files d logs =
        elim (Bool-cases (not (is_log p))) [
          | inl no_log ↦ rw no_log (walk_other cutoff rest files d logs)
          | inr log ↦ rw log (tt, refl)
        ]
    walk_other cutoff (Found.file p (ok (size, mod_time)) ∷ rest) files d logs =
        elim (Bool-cases (not (is_log p))) [
          | inl no_log ↦ rw no_log (walk_other cutoff rest files d logs)
          | inr log ↦
              let is : is_log p ≡ true = ground arith in
              elim (Bool-cases (ltb mod_time cutoff)) [
                | inl old ↦
                    let (only, same) = walk_other cutoff rest files (remove_file w p d).1 logs in
                    rw (log, old) (only, same ∙ remove_log p d is)
                | inr young ↦
                    rw (log, young)
                      (walk_other cutoff rest
                        (files ++ (record { path = p; size = size; mod_time = mod_time } ∷ [])) d
                        (AllLogs-append files _ logs is))
              ]
        ]

    walked_other :
        (sort_slice : (FileInfo → FileInfo → Bool) → List FileInfo → List FileInfo) (max_total : ℕ)
        (r : Result (List FileInfo)) (d : Disk)
        → ((files : List FileInfo) → AllLogs files → AllLogs (sort_slice (older w) files))
        → LogsOnly r
        → lookup path (walked w sort_slice max_total (r, d)).1 ≡ lookup path d
    unfolding walked LogsOnly
    walked_other sort_slice max_total (err e) d sorts only = elim (Bool-cases e.is_not_exist) [
      | inl absent ↦ rw absent refl
      | inr bad ↦ rw bad refl
    ]
    walked_other sort_slice max_total (ok files) d sorts only =
        by_tests (max_total == 0) (leb (sum_sizes files) max_total)
      where
        by_tests :
            (no_limit fits : Bool)
            → lookup path
                (if◌then◌else◌ {A = Result (Unit {0}) × Disk} no_limit
                  (ok tt, d)
                  (if fits then (ok tt, d) else (
                    ok tt,
                    evict w max_total (sum_sizes files) (sort_slice (older w) files) d,
                  ))).1
              ≡ lookup path d
        by_tests true fits = refl
        by_tests false true = refl
        by_tests false false =
            evict_other max_total (sum_sizes files) (sort_slice (older w) files) d
              (sorts files only)

    -- Whatever the walk of the folder comes upon, `Cleanup` leaves every file alone that does not
    -- have the name of a log file. Sorting keeps a list of log files one.
    pub cleanup_other :
        (sort_slice : (FileInfo → FileInfo → Bool) → List FileInfo → List FileInfo)
        (cutoff max_total : ℕ) (found : List Found) (d : Disk)
        → ((files : List FileInfo) → AllLogs files → AllLogs (sort_slice (older w) files))
        → lookup path (cleanup w sort_slice cutoff max_total found d).1 ≡ lookup path d
    unfolding cleanup
    cleanup_other sort_slice cutoff max_total found d sorts =
        let (only, same) = walk_other cutoff found [] d tt in
        walked_other sort_slice max_total (walk w cutoff found [] d).0 (walk w cutoff found [] d).1
          sorts only
        ∙ same
