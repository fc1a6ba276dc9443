-- ===== src/Walk/Visits.antt =====
-- The entries that `WalkDirFs` visits.
use elemental_cli.Base.{
  String, true, false, none, some, List, [], ◌∷◌, ◌++◌, ◌≡◌, refl, ◌∙◌, sym, ap, arith,
}
use elemental_cli.Errors.{Err}
use elemental_cli.Golang.{Go}
use elemental_cli.Walk.{
  FileTree, FileTrees, name_of, Visit, entry, unread, no_entry, Walked, go_on, skip_dir, stop,
  error_of, WalkDirFunc, walk_dir, walk_entries, walk_root, walk_dir_fs,
}

-- All entries below a path: each directory before what is in it, and once more if it cannot be read.
unfoldable mutual
  pub visits : Go → String → FileTree → List (String × Visit)
  visits L path (FileTree.file n) = (path, entry n false) ∷ []
  visits L path (FileTree.unreadable n e) = (path, entry n true) ∷ (path, unread n e) ∷ []
  visits L path (FileTree.dir n ts) = (path, entry n true) ∷ visits_in L path ts

  pub visits_in : Go → String → FileTrees → List (String × Visit)
  visits_in L path FileTrees.empty = []
  visits_in L path (FileTrees.entries t ts) =
      visits L (L.join (path ∷ name_of t ∷ [])) t ++ visits_in L path ts

abbrev pub visits_from : Go → String → FileTree → Err → List (String × Visit)
visits_from L root tree none = visits L root tree
visits_from L root tree (some e) = (root, no_entry e) ∷ []

-- A function, and the next one if it goes on.
abbrev pub and_then : {S : Type 0} → Walked × S → (S → Walked × S) → Walked × S
and_then (go_on, s) k = k s
and_then (skip_dir, s) k = (skip_dir, s)
and_then (stop e, s) k = (stop e, s)

and_then-never :
    {S : Type 0} (r : Walked × S) (k : S → Walked × S)
    → (r.0 ≡ skip_dir → ⊥)
    → ((s : S) → (k s).0 ≡ skip_dir → ⊥)
    → (and_then r k).0 ≡ skip_dir
    → ⊥
and_then-never (go_on, s) k h l = l s
and_then-never (skip_dir, s) k h l = h
and_then-never (stop e, s) k h l = h

and_then-keeps :
    {S : Type 0} (I : S → Type 0) (r : Walked × S) (k : S → Walked × S)
    → I r.1
    → ((s : S) → I s → I (k s).1)
    → I (and_then r k).1
and_then-keeps I (go_on, s) k i h = h s i
and_then-keeps I (skip_dir, s) k i h = i
and_then-keeps I (stop e, s) k i h = i

and_then_assoc :
    {S : Type 0} (r : Walked × S) (k l : S → Walked × S)
    → and_then (and_then r k) l ≡ and_then r (λ s. and_then (k s) l)
and_then_assoc (go_on, s) k l = refl
and_then_assoc (skip_dir, s) k l = refl
and_then_assoc (stop e, s) k l = refl

and_then-go_on : {S : Type 0} (r : Walked × S) → and_then r (λ s. (go_on, s)) ≡ r
and_then-go_on (go_on, s) = refl
and_then-go_on (skip_dir, s) = refl
and_then-go_on (stop e, s) = refl

-- What a directory makes of a function that does not skip.
kept :
    {S : Type 0} (r : Walked × S) (k : S → Walked × S)
    → (r.0 ≡ skip_dir → ⊥)
    → (let (w, s') = r in
        let t : Walked × S = elim w [
          | go_on ↦ k s'
          | skip_dir ↦ (go_on, s')
          | stop x ↦ (stop x, s')
        ] in
        t ≡ and_then r k)
kept (go_on, s) k h = refl
kept (skip_dir, s) k h = absurd (h refl)
kept (stop e, s) k h = refl

module _ {S : Type 0} (L : Go) (fn : WalkDirFunc S) where
  -- The visits in their order, up to the first one that does not go on.
  unfoldable pub visit_all : List (String × Visit) → S → Walked × S
  visit_all [] s = (go_on, s)
  visit_all ((p, v) ∷ vs) s = and_then (fn p v s) (visit_all vs)

  -- It leaves no directory out.
  abbrev pub NeverSkips : Type 0
  NeverSkips = (p : String) (v : Visit) (s : S) → (fn p v s).0 ≡ skip_dir → ⊥

  visit_all-append :
      (us vs : List (String × Visit)) (s : S)
      → visit_all (us ++ vs) s ≡ and_then (visit_all us s) (visit_all vs)
  unfolding visit_all
  visit_all-append [] vs s = refl
  visit_all-append ((p, v) ∷ us) vs s =
      ap (and_then (fn p v s)) (λ i s'. visit_all-append us vs s' i)
      ∙ sym (and_then_assoc (fn p v s) (visit_all us) (visit_all vs))

  visit_all-never :
      NeverSkips → (vs : List (String × Visit)) (s : S) → (visit_all vs s).0 ≡ skip_dir → ⊥
  unfolding visit_all
  visit_all-never h [] s e = absurd (ground arith)
  visit_all-never h ((p, v) ∷ vs) s e =
      and_then-never (fn p v s) (visit_all vs) (h p v s) (visit_all-never h vs) e

  pub visit_all-keeps :
      (I : S → Type 0)
      → ((p : String) (v : Visit) (s : S) → I s → I (fn p v s).1)
      → (vs : List (String × Visit)) (s : S) → I s
      → I (visit_all vs s).1
  unfolding visit_all
  visit_all-keeps I k [] s i = i
  visit_all-keeps I k ((p, v) ∷ vs) s i =
      and_then-keeps I (fn p v s) (visit_all vs) (k p v s i) (visit_all-keeps I k vs)

  mutual
    unfolding walk_dir walk_entries visits visits_in visit_all

    walk_dir-visits :
        NeverSkips
        → (p : String) (t : FileTree) (s : S) → walk_dir L fn p t s ≡ visit_all (visits L p t) s
    walk_dir-visits h p (FileTree.file n) s = sym (and_then-go_on (fn p (entry n false) s))
    walk_dir-visits h p (FileTree.unreadable n e) s =
        kept (fn p (entry n true) s) (fn p (unread n e)) (h p (entry n true) s)
        ∙ ap (and_then (fn p (entry n true) s))
            (λ i s'. sym (and_then-go_on (fn p (unread n e) s')) i)
    walk_dir-visits h p (FileTree.dir n ts) s =
        kept (fn p (entry n true) s) (walk_entries L fn p ts) (h p (entry n true) s)
        ∙ ap (and_then (fn p (entry n true) s)) (λ i s'. walk_entries-visits h p ts s' i)

    walk_entries-visits :
        NeverSkips
        → (p : String) (ts : FileTrees) (s : S)
        → walk_entries L fn p ts s ≡ visit_all (visits_in L p ts) s
    walk_entries-visits h p FileTrees.empty s = refl
    walk_entries-visits h p (FileTrees.entries t ts) s =
        let q = L.join (p ∷ name_of t ∷ []) in
        let here = walk_dir-visits h q t s in
        kept (walk_dir L fn q t s) (walk_entries L fn p ts)
          (λ e. visit_all-never h (visits L q t) s (sym (ap (λ r. r.0) here) ∙ e))
        ∙ (λ i. and_then (here i) (λ s'. walk_entries-visits h p ts s' i))
        ∙ sym (visit_all-append (visits L q t) (visits_in L p ts) s)

  -- `WalkDirFs`, with a function that never returns `SkipDir`, calls it for the root and all that is
  -- below, a directory before its entries, and a second time with the error if it cannot be read; each
  -- entry once, up to the first call that returns an error, which is that of the walk. If the root is
  -- not there, it is called with that error only.
  pub walk_dir_fs-visits :
      NeverSkips
      → (root : String) (tree : FileTree) (stat_err : Err) (s : S)
      → walk_dir_fs L fn root tree stat_err s
        ≡ (let (r, s') = visit_all (visits_from L root tree stat_err) s in (error_of r, s'))
  unfolding walk_dir_fs walk_root visit_all
  walk_dir_fs-visits h root tree none s =
      λ i. let (r, s') = walk_dir-visits h root tree s i in (error_of r, s')
  walk_dir_fs-visits h root tree (some e) s =
      λ i. let (r, s') = sym (and_then-go_on (fn root (no_entry e) s)) i in (error_of r, s')
