-- ===== src/Config/Load/Induction.antt =====
-- Induction along `loadFile` and `loadIncludes`, for what every step of them keeps.
use kimi_ssh.Base.{
  ℕ, zero, suc, ◌+◌, false, ◌≡◌, inl, inr, Option, none, some, List, [], ◌∷◌, Bool-cases,
  Option-cases,
}
use kimi_ssh.Base.Text.{Text, codes, same_text}
use kimi_ssh.Base.Text.Fields.{fields}
use kimi_ssh.Config.Block.{Setting}
use kimi_ssh.Config.Directive.{split_directive}
use kimi_ssh.Config.Resolve.{has_key}
use kimi_ssh.Config.Load.{
  LoadError, is_not_exist, Opened, readable, refused, FileSystem, Loading, Load, max_include_depth,
  open_block, add_directive, include_targets, load_targets, load_patterns, load_lines, read_opened,
  read_once, load_file, load_sources,
}

pub record Keeps (P : Loading → Type 0) : Type 0 where
  pub on_open : (s : Loading) (patterns : Text) → P s → P (open_block s patterns)
  pub on_add : (s : Loading) (d : Setting) → P s → P (add_directive s d)
  pub on_mark :
      (s : Loading) (path : Text)
      → has_key s.loaded path ≡ false
      → P s
      → P (record s { loaded = path ∷ s.loaded; opened = some path ∷ s.opened })
  -- A file without an absolute path is opened.
  pub on_visit : (s : Loading) → P s → P (record s { opened = none ∷ s.opened })

module _ (P : Loading → Type 0) (keeps : Keeps P) where
  abbrev KeptBy : (Loading → Text → Load) → Type 0
  KeptBy load = (s : Loading) (path : Text) → P s → P (load s path).0

  load_targets_keeps :
      (load : Loading → Text → Load)
      → KeptBy load
      → (s : Loading) (targets : List Text) → P s
      → P (load_targets load s targets).0
  unfolding load_targets
  load_targets_keeps load k s [] h = h
  load_targets_keeps load k s (t ∷ ts) h = elim (Option-cases (load s t).1) [
    | inl e ↦ rw (e, load_targets) (load_targets_keeps load k (load s t).0 ts (k s t h))
    | inr (x, e) ↦ elim (Bool-cases (is_not_exist x)) [
      | inl b ↦ rw (e, load_targets, b) (load_targets_keeps load k (load s t).0 ts (k s t h))
      | inr b ↦ rw (e, load_targets, b) (k s t h)
    ]
  ]

  load_patterns_keeps :
      (targets : Text → List Text) (load : Loading → Text → Load)
      → KeptBy load
      → (s : Loading) (patterns : List Text) → P s
      → P (load_patterns targets load s patterns).0
  unfolding load_patterns
  load_patterns_keeps targets load k s [] h = h
  load_patterns_keeps targets load k s (p ∷ ps) h =
      let step : P (load_targets load s (targets p)).0 =
        load_targets_keeps load k s (targets p) h in
      elim (Option-cases (load_targets load s (targets p)).1) [
        | inl e ↦ rw (e, load_patterns) (load_patterns_keeps targets load k _ ps step)
        | inr (x, e) ↦ rw (e, load_patterns) step
      ]

  load_lines_keeps :
      (include : Loading → Text → Load)
      → KeptBy include
      → (s : Loading) (lines : List Text) (end : Option LoadError) → P s
      → P (load_lines include s lines end).0
  unfolding load_lines
  load_lines_keeps include k s [] end h = h
  load_lines_keeps include k s (l ∷ ls) end h = elim (Option-cases (split_directive l)) [
    | inl e ↦ rw (e, load_lines) (load_lines_keeps include k s ls end h)
    | inr (d, e) ↦ elim (Bool-cases (same_text d.keyword (codes "host"))) [
      | inl b ↦
          rw (e, load_lines, b)
            (load_lines_keeps include k (open_block s d.value) ls end (keeps.on_open s d.value h))
      | inr b ↦ elim (Bool-cases (same_text d.keyword (codes "include"))) [
        | inl c ↦ elim (Option-cases (include s d.value).1) [
          | inl f ↦
              rw (e, load_lines, b, c, f)
                (load_lines_keeps include k (include s d.value).0 ls end (k s d.value h))
          | inr (x, f) ↦ rw (e, load_lines, b, c, f) (k s d.value h)
        ]
        | inr c ↦
            rw (e, load_lines, b, c)
              (load_lines_keeps include k (add_directive s d) ls end (keeps.on_add s d h))
      ]
    ]
  ]

  read_once_keeps :
      (include : Loading → Text → Load)
      → KeptBy include
      → (s : Loading) (absolute : Option Text) (opened : Opened) → P s
      → P (read_once include s absolute opened).0
  read_once_keeps include k s none (readable lines end) h =
      load_lines_keeps include k (record s { opened = none ∷ s.opened }) lines end
        (keeps.on_visit s h)
  read_once_keeps include k s none (refused e) h = keeps.on_visit s h
  read_once_keeps include k s (some path) opened h = elim (Bool-cases (has_key s.loaded path)) [
    | inl e ↦ rw e h
    | inr e ↦ rw e (
        opening (record s { loaded = path ∷ s.loaded; opened = some path ∷ s.opened }) opened
          (keeps.on_mark s path e h))
  ]
    where
      opening : (t : Loading) (o : Opened) → P t → P (read_opened include t o).0
      opening t (readable lines end) p = load_lines_keeps include k t lines end p
      opening t (refused x) p = p

  module _ (fs : FileSystem) (ssh_dir : Text) where
    pub load_file_keeps :
        (left : ℕ) (s : Loading) (path : Text) → P s → P (load_file fs ssh_dir left s path).0
    load_file_keeps zero s path h = unfold load_file in h
    load_file_keeps (suc left) s path h = file_step left (load_file_keeps left) s path h
      where
        file_step :
            (left : ℕ)
            → KeptBy (load_file fs ssh_dir left)
            → KeptBy (load_file fs ssh_dir (suc left))
        file_step left ih s path h =
            unfold load_file in
            read_once_keeps _
              (λ t value q.
                load_patterns_keeps (include_targets fs ssh_dir) (load_file fs ssh_dir left) ih t
                  (fields value) q)
              s (fs.absolute path) (fs.open_file path) h

    pub load_sources_keeps :
        (s : Loading) (sources : List Text) → P s → P (load_sources fs ssh_dir s sources).0
    load_sources_keeps s sources h =
        unfold load_sources in
        load_targets_keeps (load_file fs ssh_dir (max_include_depth + 1))
          (load_file_keeps (max_include_depth + 1)) s sources h
