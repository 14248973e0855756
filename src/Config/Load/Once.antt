-- ===== src/Config/Load/Once.antt =====
-- `loadFile` and `ParseConfigFiles`: the files that are marked, the open block, and the blocks that stay.
use kimi_ssh.Base.{
  ℕ, zero, suc, ◌+◌, ◌-◌, ◌≤◌, true, false, ◌≡◌, refl, sym, ap, ◌∙◌, ◌⊎◌, inl, inr, Option, none,
  some, List, [], ◌∷◌, ◌++◌, append_assoc, append-nil, arith, Option-cases, length, length-append,
}
use kimi_ssh.Base.Text.{Text, codes}
use kimi_ssh.Base.FilePath.{path_join}
use kimi_ssh.Base.Text.Fields.{fields}
use kimi_ssh.Config.Block.{Setting, HostBlock}
use kimi_ssh.Config.Resolve.{has_key, resolve_all}
use kimi_ssh.Config.Load.{
  LoadError, FileSystem, Loading, open_block, append_directive, add_directive, load_file,
  load_sources, Files, files, files_failed, ConfigParser, finish, parse_sources, parse_at,
  parse_config_files,
}
use kimi_ssh.Config.Load.Induction.{Keeps, load_sources_keeps}

abbrev pub Distinct : List Text → Type 0
Distinct [] = Unit
Distinct (x ∷ xs) = (has_key xs x ≡ false) × Distinct xs

length-append_directive :
    (bs : List HostBlock) (i : ℕ) (d : Setting) → length (append_directive bs i d) ≡ length bs
unfolding append_directive
length-append_directive [] i d = refl
length-append_directive (b ∷ bs) zero d = refl
length-append_directive (b ∷ bs) (suc i) d = ap suc (length-append_directive bs i d)

-- The files that have an absolute path, among those that were opened.
abbrev pub opened_paths : List (Option Text) → List Text
opened_paths [] = []
opened_paths (none ∷ os) = opened_paths os
opened_paths (some path ∷ os) = path ∷ opened_paths os

-- The loader's state: no path was opened twice, those that were opened are marked, and the open block
-- is the last one.
pub record IsLoading (s : Loading) : Type 0 where
  pub opened_once : Distinct (opened_paths s.opened)
  pub marked :
      (path : Text) → has_key s.loaded path ≡ false → has_key (opened_paths s.opened) path ≡ false
  pub current_is_last : (i : ℕ) → s.current ≡ some i → i + 1 ≡ length s.blocks

IsLoading-Keeps : Keeps IsLoading
unfolding open_block add_directive
IsLoading-Keeps = record {
  on_open = λ s patterns h. record {
    opened_once = h.opened_once;
    marked = h.marked;
    current_is_last = λ i e. ground (
      arith,
      length-append s.blocks (record { patterns = fields patterns; directives = [] } ∷ []),
    );
  };
  on_add = λ s d h. on_add s d h (Option-cases s.current);
  on_mark = λ s path e h. record {
    opened_once = (h.marked path e, h.opened_once);
    marked = λ x f. ground (arith, h.marked x, f);
    current_is_last = h.current_is_last;
  };
  on_visit = λ s h. record {
    opened_once = h.opened_once;
    marked = h.marked;
    current_is_last = h.current_is_last;
  };
}
  where
    on_add :
        (s : Loading) (d : Setting)
        → IsLoading s
        → (s.current ≡ none) ⊎ ((i : ℕ) × (s.current ≡ some i))
        → IsLoading (add_directive s d)
    on_add s d h (inl e) = rw (e, add_directive) h
    on_add s d h (inr (i, e)) =
        rw (e, add_directive)
          (record {
            opened_once = h.opened_once;
            marked = h.marked;
            current_is_last =
                λ j f. h.current_is_last j f ∙ sym (length-append_directive s.blocks i d);
          })

-- However files include one another, no file whose absolute path is known is opened twice, and the
-- block that directives are added to is always the one that was opened last. A file whose path
-- cannot be made absolute may be opened more often.
pub load_sources-IsLoading :
    (fs : FileSystem) (ssh_dir : Text) (sources : List Text) (s : Loading)
    → IsLoading s
    → IsLoading (load_sources fs ssh_dir s sources).0
load_sources-IsLoading fs ssh_dir sources s h =
    load_sources_keeps IsLoading IsLoading-Keeps fs ssh_dir s sources h

-- A file that was read is passed over without an error: an `Include` loop ends there.
pub load_file_again :
    (fs : FileSystem) (ssh_dir : Text) (left : ℕ) (s : Loading) (path absolute : Text)
    → fs.absolute path ≡ some absolute
    → has_key s.loaded absolute ≡ true
    → load_file fs ssh_dir left s path ≡ (s, none)
unfolding load_file
load_file_again fs ssh_dir zero s path absolute e h = refl
load_file_again fs ssh_dir (suc left) s path absolute e h = rw (e, h)

-- The blocks that were there before stand in front, unchanged.
record Extends (old : List HostBlock) (s : Loading) : Type 0 where
  new : List HostBlock
  split : s.blocks ≡ old ++ new
  current_in_new : (i : ℕ) → s.current ≡ some i → length old ≤ i

append_directive_past :
    (old new : List HostBlock) (i : ℕ) (d : Setting)
    → length old ≤ i
    → append_directive (old ++ new) i d ≡ old ++ append_directive new (i - length old) d
unfolding append_directive
append_directive_past [] new i d h = let e : i - 0 ≡ i = omega arith in rw e
append_directive_past (b ∷ old) new zero d h = absurd (omega arith)
append_directive_past (b ∷ old) new (suc i) d h =
    let e : suc i - suc (length old) ≡ i - length old = omega arith in
    rw e (ap (◌∷◌ b) (append_directive_past old new i d (omega arith)))

Extends-Keeps : (old : List HostBlock) → Keeps (Extends old)
Extends-Keeps old = record {
  on_open = λ s patterns h.
      unfold open_block in
      record {
        new = h.new ++ record { patterns = fields patterns; directives = [] } ∷ [];
        split =
            ap (λ bs. bs ++ record { patterns = fields patterns; directives = [] } ∷ []) h.split
            ∙ append_assoc old h.new _;
        current_in_new = λ i e. ground (arith, ap length h.split, length-append old h.new);
      };
  on_add = λ s d h. on_add s d h (Option-cases s.current);
  on_mark =
      λ s path e h. record { new = h.new; split = h.split; current_in_new = h.current_in_new };
  on_visit = λ s h. record { new = h.new; split = h.split; current_in_new = h.current_in_new };
}
  where
    on_add :
        (s : Loading) (d : Setting)
        → Extends old s
        → (s.current ≡ none) ⊎ ((i : ℕ) × (s.current ≡ some i))
        → Extends old (add_directive s d)
    on_add s d h (inl e) = unfold add_directive in rw (e, add_directive) h
    on_add s d h (inr (i, e)) =
        unfold add_directive in
        rw (e, add_directive)
          (record {
            new = append_directive h.new (i - length old) d;
            split =
                ap (λ bs. append_directive bs i d) h.split
                ∙ append_directive_past old h.new i d (h.current_in_new i e);
            current_in_new = λ j f. h.current_in_new j f;
          })

abbrev pub Added : ConfigParser → ConfigParser → Type 0
Added p q = (new : List HostBlock) × (q.blocks ≡ p.blocks ++ new)

-- What a parse leaves: all earlier blocks in front, and the hosts resolved from all blocks if it
-- succeeded, or the hosts of the last successful parse if it failed.
abbrev pub ParseResult : Option Text → ConfigParser → ConfigParser × Option LoadError → Type 0
ParseResult home p (q, none) = Added p q × (q.hosts ≡ resolve_all home q.blocks)
ParseResult home p (q, some e) = Added p q × (q.hosts ≡ p.hosts)

finish-ParseResult :
    (home : Option Text) (p : ConfigParser) (s : Loading) (e : Option LoadError)
    → Extends p.blocks s
    → ParseResult home p (finish home p (s, e))
finish-ParseResult home p s none h = ((h.new, h.split), refl)
finish-ParseResult home p s (some e) h = ((h.new, h.split), refl)

parse_sources-ParseResult :
    (fs : FileSystem) (p : ConfigParser) (ssh_dir : Text) (found : Files)
    → ParseResult fs.home p (parse_sources fs p ssh_dir found)
parse_sources-ParseResult fs p ssh_dir (files_failed e) = (([], sym (append-nil p.blocks)), refl)
parse_sources-ParseResult fs p ssh_dir (files extra) = finish-ParseResult fs.home p _ _ (
    load_sources_keeps (Extends p.blocks) (Extends-Keeps p.blocks) fs ssh_dir
      (record { blocks = p.blocks; current = none; loaded = []; opened = [] })
      (path_join (ssh_dir ∷ codes "config" ∷ []) ∷ extra)
      (record {
        new = [];
        split = sym (append-nil p.blocks);
        current_in_new = λ i e. ground arith;
      }))

parse_at-ParseResult :
    (fs : FileSystem) (p : ConfigParser) (home : Option Text)
    → ParseResult fs.home p (parse_at fs p home)
parse_at-ParseResult fs p none = (([], sym (append-nil p.blocks)), refl)
parse_at-ParseResult fs p (some home) = parse_sources-ParseResult fs p _ _

-- A parse only ever adds blocks behind those of earlier parses. If it succeeds the hosts are
-- resolved from all of them; if it fails the hosts stay as they were.
pub parse_config_files-ParseResult :
    (fs : FileSystem) (p : ConfigParser) → ParseResult fs.home p (parse_config_files fs p)
unfolding parse_config_files
parse_config_files-ParseResult fs p = parse_at-ParseResult fs p fs.home
