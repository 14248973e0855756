-- ===== src/Config/Load/Grouped.antt =====
-- The lines of a file without `Include` against its blocks.
use kimi_ssh.Base.{
  Bool, true, false, not, ◌&&◌, ◌≡◌, refl, sym, ap, ◌∙◌, inl, inr, Option, none, some, List, [],
  ◌∷◌, ◌++◌, append_assoc, append-nil, arith, Bool-cases, Option-cases, length, if◌then◌else◌,
}
use kimi_ssh.Base.Text.{Text, codes, same_text}
use kimi_ssh.Base.Text.Fields.{fields}
use kimi_ssh.Config.Block.{Setting, HostBlock}
use kimi_ssh.Config.Directive.{split_directive}
use kimi_ssh.Config.Load.{
  Load, LoadError, Loading, open_block, append_directive, add_directive, load_lines,
}

abbrev is_host : Setting → Bool
is_host d = same_text d.keyword (codes "host")

abbrev is_include : Setting → Bool
is_include d = same_text d.keyword (codes "include")

abbrev with_setting : Option Setting → List Setting → List Setting
with_setting none ds = ds
with_setting (some d) ds = d ∷ ds

-- The directives of a file, in order.
abbrev pub settings_of : List Text → List Setting
settings_of [] = []
settings_of (line ∷ lines) = with_setting (split_directive line) (settings_of lines)

abbrev pub lacks_include : List Setting → Bool
lacks_include [] = true
lacks_include (d ∷ ds) = not (is_include d) && lacks_include ds

-- The directives in front of the first `Host` line.
abbrev pub before_host : List Setting → List Setting
before_host [] = []
before_host (d ∷ ds) = if is_host d then [] else d ∷ before_host ds

-- Each `Host` line with the directives up to the next one.
abbrev pub grouped : List Setting → List HostBlock
grouped [] = []
grouped (d ∷ ds) =
    if is_host d
    then record { patterns = fields d.value; directives = before_host ds } ∷ grouped ds
    else grouped ds

abbrev pub take_settings : Loading → List Setting → Loading
take_settings s [] = s
take_settings s (d ∷ ds) =
    take_settings (if is_host d then open_block s d.value else add_directive s d) ds

-- One line after the other, the lines without a directive left out.
pub load_lines-take_settings :
    (include : Loading → Text → Load) (s : Loading) (lines : List Text) (end : Option LoadError)
    → lacks_include (settings_of lines) ≡ true
    → load_lines include s lines end ≡ (take_settings s (settings_of lines), end)
unfolding load_lines
load_lines-take_settings include s [] end h = refl
load_lines-take_settings include s (line ∷ lines) end h =
    elim (Option-cases (split_directive line)) [
      | inl e ↦ rw (e, load_lines) (load_lines-take_settings include s lines end (rw e at h))
      | inr (d, e) ↦
          let k : (is_include d ≡ false) × (lacks_include (settings_of lines) ≡ true) =
            (let g : (not (is_include d) && lacks_include (settings_of lines)) ≡ true = rw e at h in
              ground (arith, g)) in
          elim (Bool-cases (is_host d)) [
            | inl f ↦
                rw (e, load_lines, take_settings, f)
                  (load_lines-take_settings include (open_block s d.value) lines end k.1)
            | inr f ↦
                rw (e, load_lines, take_settings, f, k.0)
                  (load_lines-take_settings include (add_directive s d) lines end k.1)
          ]
    ]

abbrev extended : HostBlock → List Setting → HostBlock
extended b ds = record b { directives = b.directives ++ ds }

append_directive_last :
    (front : List HostBlock) (b : HostBlock) (d : Setting)
    → append_directive (front ++ b ∷ []) (length front) d ≡ front ++ extended b (d ∷ []) ∷ []
unfolding append_directive
append_directive_last [] b d = refl
append_directive_last (c ∷ front) b d = ap (◌∷◌ c) (append_directive_last front b d)

-- The loader with `b` the open block.
abbrev filling : List HostBlock → HostBlock → List Text → List (Option Text) → Loading
filling front b loaded log = record {
  blocks = front ++ b ∷ [];
  current = some (length front);
  loaded = loaded;
  opened = log;
}

take_settings-filling :
    (front : List HostBlock) (b : HostBlock) (loaded : List Text) (log : List (Option Text))
    (ds : List Setting)
    → (take_settings (filling front b loaded log) ds).blocks
      ≡ front ++ extended b (before_host ds) ∷ grouped ds
unfolding open_block add_directive
take_settings-filling front b loaded log [] = rw (append-nil b.directives) refl
take_settings-filling front b loaded log (d ∷ ds) = elim (Bool-cases (is_host d)) [
  | inl f ↦
      let new : HostBlock = record { patterns = fields d.value; directives = [] } in
      let ih : (take_settings (filling (front ++ b ∷ []) new loaded log) ds).blocks
          ≡ (front ++ b ∷ []) ++ extended new (before_host ds) ∷ grouped ds =
        take_settings-filling (front ++ b ∷ []) new loaded log ds in
      rw (f, take_settings) (ih ∙ append_assoc front (b ∷ []) _ ∙ rw (append-nil b.directives) refl)
  | inr f ↦
      let ih : (take_settings (filling front (extended b (d ∷ [])) loaded log) ds).blocks
          ≡ front ++ extended (extended b (d ∷ [])) (before_host ds) ∷ grouped ds =
        take_settings-filling front (extended b (d ∷ [])) loaded log ds in
      rw (f, append_directive_last front b d, take_settings)
        (ih ∙ rw (append_assoc b.directives (d ∷ []) (before_host ds)) refl)
]

pub take_settings-fresh :
    (blocks : List HostBlock) (loaded : List Text) (log : List (Option Text)) (ds : List Setting)
    → (take_settings
        (record { blocks = blocks; current = none; loaded = loaded; opened = log })
        ds).blocks
      ≡ blocks ++ grouped ds
unfolding open_block add_directive
take_settings-fresh blocks loaded log [] = sym (append-nil blocks)
take_settings-fresh blocks loaded log (d ∷ ds) = elim (Bool-cases (is_host d)) [
  | inl f ↦
      rw (f, take_settings)
        (take_settings-filling blocks (record { patterns = fields d.value; directives = [] }) loaded
          log ds)
  | inr f ↦ rw (f, take_settings) (take_settings-fresh blocks loaded log ds)
]
