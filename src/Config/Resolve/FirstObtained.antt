-- ===== src/Config/Resolve/FirstObtained.antt =====
-- `resolve` against OpenSSH's rule that the first obtained value wins.
use kimi_ssh.Base.{
  true, false, ◌||◌, ◌&&◌, ◌≡◌, refl, ap, ◌∙◌, inl, inr, Option, none, some, List, [], ◌∷◌, ◌++◌,
  arith, if◌then◌else◌, get_or, is_some, Bool-cases,
}
use kimi_ssh.Base.Int.{negsuc}
use kimi_ssh.Base.Text.{Text, codes, same_text, same_text_iff, same_text_self}
use kimi_ssh.Config.Block.{Setting, HostBlock, applies_to}
use kimi_ssh.Config.Settings.{SshConfig, initial_config}
use kimi_ssh.Config.Settings.Fields.{
  Field, IsWritten, host-apply_setting, host_name_field, port_field, user_field,
  identity_file_field, proxy_jump_field, proxy_command_field, interval_field, host_name-IsWritten,
  port-IsWritten, user-IsWritten, identity_file-IsWritten, proxy_jump-IsWritten,
  proxy_command-IsWritten, interval-IsWritten,
}
use kimi_ssh.Config.Resolve.{has_key, Resolving, obtain, obtain_all, resolve_blocks, resolve}

-- The directives of the blocks that cover an alias, in file order.
abbrev pub covered : Text → List HostBlock → List Setting
covered al [] = []
covered al (b ∷ bs) = (if applies_to b al then b.directives else []) ++ covered al bs

-- The first value of a field that can be read.
abbrev pub first_obtained {ℓ} : {A : Type ℓ} → Field A → List Setting → Option A
first_obtained f [] = none
first_obtained f (d ∷ ds) = elim (same_text d.keyword f.keyword) [
  | true ↦ elim (f.read d.value) [ some a ↦ some a | none ↦ first_obtained f ds ]
  | false ↦ first_obtained f ds
]

has_key_other :
    (keys : List Text) (k j : Text) → same_text k j ≡ false → has_key (k ∷ keys) j ≡ has_key keys j
has_key_other keys k j h = rw h

module _ {ℓ} {A : Type ℓ} (home : Option Text) (f : Field A) (w : IsWritten home f) where
  -- What one directive does to the field, and to the memory of it.
  obtain_lem :
      (s : Resolving) (k v : Text)
      → (has_key (obtain home s k v).assigned f.keyword
          ≡ (has_key s.assigned f.keyword || same_text k f.keyword && is_some (f.read v)))
        × (f.get (obtain home s k v).config ≡ (
            if has_key s.assigned f.keyword
            then f.get s.config
            else if same_text k f.keyword
            then get_or (f.get s.config) (f.read v)
            else f.get s.config))
  unfolding obtain
  obtain_lem s k v = elim (Bool-cases (same_text k f.keyword)) [
    | inl e ↦ rw ((same_text_iff k f.keyword).0 e) (
      ground (arith, w.own s.config v, w.understood s.config v, same_text_self f.keyword),
      ground (arith, w.own s.config v, same_text_self f.keyword),
    )
    | inr e ↦ (ground arith, ground (arith, w.other s.config k v))
  ]

  obtain_all_lem :
      (s : Resolving) (ds : List Setting)
      → f.get (obtain_all home s ds).config ≡ (
          if has_key s.assigned f.keyword
          then f.get s.config
          else get_or (f.get s.config) (first_obtained f ds))
  unfolding obtain_all
  obtain_all_lem s [] = ground arith
  obtain_all_lem s (d ∷ ds) =
      ground
        (arith, obtain_lem s d.keyword d.value, obtain_all_lem (obtain home s d.keyword d.value) ds)

module _ (home : Option Text) where
  obtain_all-append :
      (s : Resolving) (ds es : List Setting)
      → obtain_all home s (ds ++ es) ≡ obtain_all home (obtain_all home s ds) es
  unfolding obtain_all
  obtain_all-append s [] es = refl
  obtain_all-append s (d ∷ ds) es = obtain_all-append (obtain home s d.keyword d.value) ds es

  resolve_blocks_lem :
      (al : Text) (s : Resolving) (bs : List HostBlock)
      → resolve_blocks home al s bs ≡ obtain_all home s (covered al bs)
  unfolding resolve_blocks
  resolve_blocks_lem al s [] = unfold obtain_all in refl
  resolve_blocks_lem al s (b ∷ bs) = elim (Bool-cases (applies_to b al)) [
    | inl e ↦
        rw (e, obtain_all-append s b.directives (covered al bs))
          (resolve_blocks_lem al (obtain_all home s b.directives) bs)
    | inr e ↦ rw e (resolve_blocks_lem al s bs)
  ]

  host-obtain : (s : Resolving) (k v : Text) → (obtain home s k v).config.host ≡ s.config.host
  unfolding obtain
  host-obtain s k v = ground (arith, host-apply_setting home s.config k v)

  host-obtain_all :
      (s : Resolving) (ds : List Setting) → (obtain_all home s ds).config.host ≡ s.config.host
  unfolding obtain_all
  host-obtain_all s [] = refl
  host-obtain_all s (d ∷ ds) =
      host-obtain_all (obtain home s d.keyword d.value) ds ∙ host-obtain s d.keyword d.value

  abbrev resolving : Text → Resolving
  resolving al = record { config = initial_config al; assigned = [] }

  resolve-covered :
      (bs : List HostBlock) (al : Text)
      → resolve home bs al ≡ (obtain_all home (resolving al) (covered al bs)).config
  unfolding resolve
  resolve-covered bs al = ap (λ (s : Resolving). s.config) (resolve_blocks_lem al (resolving al) bs)

  -- One field of a resolved entry.
  resolve_field {ℓ} :
      {A : Type ℓ} (f : Field A)
      → IsWritten home f
      → (bs : List HostBlock) (al : Text)
      → f.get (resolve home bs al)
        ≡ get_or (f.get (initial_config al)) (first_obtained f (covered al bs))
  resolve_field f w bs al =
      ap f.get (resolve-covered bs al) ∙ obtain_all_lem home f w (resolving al) (covered al bs)

  -- The entry in which every field has its first obtained value, or its default.
  abbrev pub first_obtained_config : Text → List Setting → SshConfig
  first_obtained_config al ds = record {
    host = al;
    host_name = get_or [] (first_obtained (host_name_field home) ds);
    port = get_or (codes "22") (first_obtained (port_field home) ds);
    user = get_or [] (first_obtained (user_field home) ds);
    identity_file = get_or [] (first_obtained (identity_file_field home) ds);
    proxy_jump = get_or [] (first_obtained (proxy_jump_field home) ds);
    proxy_command = get_or [] (first_obtained (proxy_command_field home) ds);
    server_alive_interval = get_or (negsuc 0) (first_obtained (interval_field home) ds);
  }

  -- The entry of an alias holds, for each field, the first readable value that the blocks covering
  -- the alias give in file order, and the field's default when they give none.
  pub resolve-first_obtained :
      (bs : List HostBlock) (al : Text)
      → resolve home bs al ≡ first_obtained_config al (covered al bs)
  resolve-first_obtained bs al = λ i. record {
    host =
        (ap (λ (c : SshConfig). c.host) (resolve-covered bs al)
            ∙ host-obtain_all (resolving al) (covered al bs))
          i;
    host_name = resolve_field (host_name_field home) (host_name-IsWritten home) bs al i;
    port = resolve_field (port_field home) (port-IsWritten home) bs al i;
    user = resolve_field (user_field home) (user-IsWritten home) bs al i;
    identity_file = resolve_field (identity_file_field home) (identity_file-IsWritten home) bs al i;
    proxy_jump = resolve_field (proxy_jump_field home) (proxy_jump-IsWritten home) bs al i;
    proxy_command = resolve_field (proxy_command_field home) (proxy_command-IsWritten home) bs al i;
    server_alive_interval = resolve_field (interval_field home) (interval-IsWritten home) bs al i;
  }
