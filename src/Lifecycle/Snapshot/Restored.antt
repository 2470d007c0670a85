-- ===== src/Lifecycle/Snapshot/Restored.antt =====
-- `restoreBytes` brings back what `snapshotBytes` saved, where the operations on files do what they
-- are documented to do. Whatever happens in between is of no matter.
use kakesu.Prelude.{
  ℕ, String, Bool, ◌≡◌, refl, sym, subst, ◌∙◌, ap, some, none, List, [], ◌∷◌, All, All-map, ◌==◌,
  eq_iff, eq_refl, Bool-cases, Option-cases, inl, inr, if◌then◌else◌, map,
}
use kakesu.Result.{Result, ok}
use kakesu.Work.Node.{Node}
use kakesu.Lifecycle.Script.{
  Event, World, exec, handle, exists, read_text, write, stat, make_dir, remove, chmod,
}
use kakesu.Lifecycle.Script.Laws.{exec-ok}
use kakesu.Lifecycle.Snapshot.Disk.{
  State, Effect, disk, is_there, is_there-written, IsObliging, set_state, exec-finish,
  exec-answered,
}
use kakesu.Lifecycle.Snapshot.{
  Saved, place_of, save_file, snapshot_bytes, restore_file, restore_bytes, write_file, remove_file,
}

module _ (start : String → State) (effect : Effect) (dirs : List Event → String → Bool)
    (world : World) (node : Node) (obliging : IsObliging start effect node.dirname dirs world)
    (root : String) where
  abbrev files : List Event → String → State
  files = disk start effect

  -- Bringing back a file sets its place, and no other.
  abbrev IsPlaced : String → State → List Event → Result (Unit {0}) × List Event → Type 0
  IsPlaced place state past run =
      (run.0 ≡ ok tt)
      × ((path : String) → files run.1 path ≡ (if place == path then state else files past path))

  write_file-IsPlaced :
      (file : String) (mode : ℕ) (text : String) (past : List Event)
      → IsPlaced
          (place_of node root file)
          (some (mode, text))
          past
          (exec world (write_file node root file mode text) past)
  unfolding handle disk
  write_file-IsPlaced file mode text past =
      let place : String = place_of node root file in
      rw (exec-answered world (make_dir (node.dirname place)) _ past (obliging.makes past _)) (
        rw
          (exec-answered world (write place text) _ _
            (obliging.writes _ place text (obliging.made past (node.dirname place))))
          (rw
            (exec-answered world (chmod place mode) _ _ (
              obliging.sets_mode _ place mode
                (is_there-written (place == place) text (files past place) (eq_refl place))))
            (unfold exec in (refl, λ path. set_state (place == path) (files past path) mode text))))

  remove_file-IsPlaced :
      (file : String) (past : List Event)
      → IsPlaced (place_of node root file) none past (exec world (remove_file node root file) past)
  unfolding handle disk
  remove_file-IsPlaced file past =
      let place : String = place_of node root file in
      rw (exec-answered world (exists place) _ past (obliging.tells past place))
        (elim (Option-cases (files past place)) [
          | inl gone ↦ rw gone (
              unfold exec in
              (
                refl,
                λ path. elim (Bool-cases (place == path)) [
                  | inl same ↦ rw (same, sym ((eq_iff place path).0 same), gone) refl
                  | inr other ↦ rw other refl
                ],
              ))
          | inr (state, here) ↦ rw here (
              rw
                (exec-answered world (remove place) _ _
                  (obliging.removes _ place (ap is_there here)))
                (unfold exec in (refl, λ path. refl)))
        ])

  restore_file-IsPlaced :
      (saved : Saved) (past : List Event)
      → IsPlaced
          (place_of node root saved.file)
          saved.state
          past
          (exec world (restore_file node root saved) past)
  unfolding restore_file
  restore_file-IsPlaced saved past = elim (Option-cases saved.state) [
    | inl e ↦ rw e (remove_file-IsPlaced saved.file past)
    | inr ((mode, text), e) ↦ rw e (write_file-IsPlaced saved.file mode text past)
  ]

  -- Every saved file is what stands at its place in `target`.
  abbrev pub Agrees : (String → State) → List Saved → Type 0
  Agrees target = All (λ saved. saved.state ≡ target (place_of node root saved.file))

  abbrev pub AreRestored : (String → State) → List Saved → Result (Unit {0}) × List Event → Type 0
  AreRestored target snapshot run =
      (run.0 ≡ ok tt)
      × All
          (λ saved.
            files run.1 (place_of node root saved.file) ≡ target (place_of node root saved.file))
          snapshot

  -- Bringing back files that agree with `target` leaves a place that is as in `target` so.
  restore_bytes-keeps :
      (target : String → State) (snapshot : List Saved) (past : List Event) (path : String)
      → Agrees target snapshot
      → files past path ≡ target path
      → files (exec world (restore_bytes node root snapshot) past).1 path ≡ target path
  unfolding restore_bytes
  restore_bytes-keeps target [] past path agrees h = unfold exec in h
  restore_bytes-keeps target (saved ∷ rest) past path (here, agrees) h =
      let (done, set) = restore_file-IsPlaced saved past in
      let place : String = place_of node root saved.file in
      rw (exec-ok world (restore_file node root saved) _ past done) (
        restore_bytes-keeps target rest _ path agrees (
          set path ∙ elim (Bool-cases (place == path)) [
            | inl same ↦ rw same (here ∙ ap target ((eq_iff place path).0 same))
            | inr other ↦ rw other h
          ]))

  restore_bytes-AreRestored :
      (target : String → State) (snapshot : List Saved) (past : List Event)
      → Agrees target snapshot
      → AreRestored target snapshot (exec world (restore_bytes node root snapshot) past)
  unfolding restore_bytes
  restore_bytes-AreRestored target [] past agrees = unfold exec in (refl, tt)
  restore_bytes-AreRestored target (saved ∷ rest) past (here, agrees) =
      let (done, set) = restore_file-IsPlaced saved past in
      let place : String = place_of node root saved.file in
      let now : List Event = (exec world (restore_file node root saved) past).1 in
      let at_place : files now place ≡ target place = set place ∙ rw (eq_refl place) here in
      let (ended, later) = restore_bytes-AreRestored target rest now agrees in
      subst (AreRestored target (saved ∷ rest))
        (sym (
          exec-ok world (restore_file node root saved) (λ u. restore_bytes node root rest) past
            done))
        (ended, (restore_bytes-keeps target rest now place agrees at_place, later))

  -- A file is saved as it is, and no file is changed.
  abbrev IsSaved : String → List Event → Result Saved × List Event → Type 0
  IsSaved file past run =
      (run.0 ≡ ok (record { file = file; state = files past (place_of node root file) }))
      × ((path : String) → files run.1 path ≡ files past path)

  save_file-IsSaved :
      (file : String) (past : List Event)
      → IsSaved file past (exec world (save_file node root file) past)
  unfolding save_file handle disk
  save_file-IsSaved file past =
      let place : String = place_of node root file in
      rw (exec-answered world (exists place) _ past (obliging.tells past place))
        (elim (Option-cases (files past place)) [
          | inl gone ↦ rw gone (unfold exec in (refl, λ path. refl))
          | inr ((mode, text), here) ↦ rw here (
              rw (exec-answered world (stat place) _ _ (obliging.shows_mode _ place mode text here))
                (rw
                  (exec-answered world (read_text place) _ _
                    (obliging.shows_text _ place mode text here))
                  (unfold exec in (refl, λ path. refl))))
        ])

  abbrev names : List Saved → List String
  names snapshot = map (λ saved. saved.file) snapshot

  -- Files are saved as they are, and no file is changed.
  abbrev AreSaved : List String → List Event → Result (List Saved) × List Event → Type 0
  AreSaved list past run =
      (snapshot : List Saved) × (run.0 ≡ ok snapshot)
      × (names snapshot ≡ list)
      × Agrees (files past) snapshot
      × ((path : String) → files run.1 path ≡ files past path)

  snapshot_bytes-AreSaved :
      (list : List String) (past : List Event)
      → AreSaved list past (exec world (snapshot_bytes node root list) past)
  unfolding snapshot_bytes
  snapshot_bytes-AreSaved [] past = unfold exec in ([], refl, refl, tt, λ path. refl)
  snapshot_bytes-AreSaved (file ∷ list) past =
      let m = save_file node root file in
      let rest = snapshot_bytes node root list in
      let (done, kept) = save_file-IsSaved file past in
      let now : List Event = (exec world m past).1 in
      let (snapshot, ended, same, agrees, unchanged) = snapshot_bytes-AreSaved list now in
      let saved : Saved = record { file = file; state = files past (place_of node root file) } in
      subst (AreSaved (file ∷ list) past)
        (sym (
          exec-ok world m _ past done
          ∙ exec-ok world rest _ now ended
          ∙ exec-finish world (ok (saved ∷ snapshot)) (exec world rest now).1))
        (
          saved ∷ snapshot,
          refl,
          ap (◌∷◌ file) same,
          (refl, All-map (λ s e. e ∙ kept (place_of node root s.file)) snapshot agrees),
          λ path. unchanged path ∙ kept path,
        )

  All-names :
      (P : String → Type 0) (snapshot : List Saved)
      → All (λ saved. P saved.file) snapshot
      → All P (names snapshot)
  All-names P [] h = tt
  All-names P (saved ∷ rest) (p, h) = (p, All-names P rest h)

  -- What the files of a list are once a snapshot of them was brought back.
  abbrev pub AreBack : List String → List Event → List Event → Type 0
  AreBack list past later =
      (snapshot : List Saved) × ((exec world (snapshot_bytes node root list) past).0 ≡ ok snapshot)
      × ((exec world (restore_bytes node root snapshot) later).0 ≡ ok tt)
      × All
          (λ file.
            files (exec world (restore_bytes node root snapshot) later).1 (place_of node root file)
            ≡ files past (place_of node root file))
          list

  -- Where an operation on a file fails only because the file or its directory is not there, a snapshot
  -- of files can be taken at any time and brought back at any other, whatever happened to the files
  -- and their directories in between, and each of them is then what it was: absent, or there with its
  -- mode and its bytes.
  pub restore_bytes-snapshot_bytes :
      (list : List String) (past later : List Event) → AreBack list past later
  restore_bytes-snapshot_bytes list past later =
      let (snapshot, taken, same, agrees, unchanged) = snapshot_bytes-AreSaved list past in
      let (done, back) = restore_bytes-AreRestored (files past) snapshot later agrees in
      let P : String → Type 0 = λ file.
        files (exec world (restore_bytes node root snapshot) later).1 (place_of node root file)
        ≡ files past (place_of node root file) in
      (snapshot, taken, done, subst (All P) same (All-names P snapshot back))
