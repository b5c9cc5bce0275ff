-- ===== src/Driver/Known.antt =====
-- What MemoryFS knows of a volume that was registered by a request, and what keeps it.
use csi_driver_trusted_ca.Common.{
  ◌≡◌, refl, sym, ◌∙◌, ap, subst, Bool, true, false, [], ◌∷◌, Option, none, some, Bytes, lookup,
  insert, lookup-insert, list_eq, nat_eq, ◌=?◌, =?_iff, arith, inl, inr, Option-cases, Bool-cases,
  ◌∷◌,
}
use csi_driver_trusted_ca.Storage.{Metadata, Files, Reply, ok, err, not_found}
use csi_driver_trusted_ca.Storage.Register.{register_metadata-read}
use csi_driver_trusted_ca.Storage.Memory.{
  Codec, MemoryFs, metadata_file, decode, read_metadata, register_metadata, register_in,
  write_files, add_files,
}
use csi_driver_trusted_ca.Driver.{PublishRequest, from_node_publish_volume_request}

module _ (c : Codec) (req : PublishRequest) where
  abbrev pub registered : Metadata
  registered = from_node_publish_volume_request req

  -- what the store knows of the volume agrees with the request
  pub record Knows (store : MemoryFs) : Type 0 where
    pub meta : Metadata
    pub read : read_metadata c req.volume_id store ≡ ok meta
    pub same : c.deep_equal meta.volume_context req.volume_context ≡ true

  record Stored (store : MemoryFs) (meta : Metadata) : Type 0 where
    pub vol : Files
    pub json : Bytes
    pub volume : lookup req.volume_id store ≡ some vol
    pub text : lookup metadata_file vol ≡ some json
    pub decoded : c.unmarshal json ≡ some meta

  read-Stored :
      (store : MemoryFs) (meta : Metadata)
      → read_metadata c req.volume_id store ≡ ok meta
      → Stored store meta
  unfolding read_metadata
  read-Stored store meta h = elim (Option-cases (lookup req.volume_id store)) [
    | inl e ↦ absurd (cc (rw (e, read_metadata) at h))
    | inr (vol, e) ↦ by_text vol e (rw (e, read_metadata) at h)
  ]
    where
      by_json :
          (vol : Files) (json : Bytes)
          → lookup req.volume_id store ≡ some vol
          → lookup metadata_file vol ≡ some json
          → decode c (some json) ≡ ok meta
          → Stored store meta
      by_json vol json e t g = elim (Option-cases (c.unmarshal json)) [
        | inl u ↦ absurd (ground arith)
        | inr (meta', u) ↦ record {
          vol = vol;
          json = json;
          volume = e;
          text = t;
          decoded = ground arith;
        }
      ]

      by_text :
          (vol : Files)
          → lookup req.volume_id store ≡ some vol
          → decode c (lookup metadata_file vol) ≡ ok meta
          → Stored store meta
      by_text vol e g = elim (Option-cases (lookup metadata_file vol)) [
        | inl t ↦ absurd (cc (rw t at g))
        | inr (json, t) ↦ by_json vol json e t (rw t at g)
      ]

  -- so it is registered already
  pub Knows-register_metadata :
      (store : MemoryFs) → Knows store → register_metadata c registered store ≡ (ok false, store)
  unfolding register_metadata register_in from_node_publish_volume_request
  Knows-register_metadata store k =
      let r = read-Stored store k.meta k.read in
      rw (r.volume, register_metadata)
        (rw (r.text, register_in) (rw (r.decoded) (rw (k.same) refl)))

  add_files-lookup :
      (k : Bytes) (files vol : Files)
      → lookup k files ≡ none
      → lookup k (add_files files vol) ≡ lookup k vol
  unfolding add_files lookup
  add_files-lookup k [] vol h = refl
  add_files-lookup k ((j, v) ∷ files) vol h = elim (Bool-cases (j =? k)) [
    | inl e ↦ absurd (ground arith)
    | inr e ↦
        add_files-lookup k files (insert j v vol) (rw e at h) ∙ lookup-insert j k v vol ∙ rw e refl
  ]

  abbrev by_volume : Option Files → Reply Metadata
  by_volume none = err not_found
  by_volume (some vol) = decode c (lookup metadata_file vol)

  read-by_volume :
      (m : MemoryFs) (o : Option Files)
      → lookup req.volume_id m ≡ o
      → read_metadata c req.volume_id m ≡ by_volume o
  unfolding read_metadata
  read-by_volume m none e = rw (e, read_metadata) refl
  read-by_volume m (some vol) e = rw (e, read_metadata) refl

  -- certificates that leave the metadata's file alone
  pub write_files-read :
      (meta : Metadata) (files : Files) (m : MemoryFs)
      → lookup metadata_file files ≡ none
      → read_metadata c req.volume_id (write_files meta files m).1 ≡ read_metadata c req.volume_id m
  unfolding read_metadata write_files
  write_files-read meta files m h = elim (Option-cases (lookup meta.volume_id m)) [
    | inl e ↦ rw (e, write_files) refl
    | inr (vol, e) ↦
        let made : (write_files meta files m).1 ≡ insert meta.volume_id (add_files files vol) m =
          rw (e, write_files) refl in
        let found = lookup-insert meta.volume_id req.volume_id (add_files files vol) m in
        ap (read_metadata c req.volume_id) made
        ∙ elim (Bool-cases (meta.volume_id =? req.volume_id)) [
          | inl q ↦
              let here : lookup req.volume_id m ≡ some vol =
                subst (λ k. lookup k m ≡ some vol) ((=?_iff meta.volume_id req.volume_id).0 q) e in
              read-by_volume (insert meta.volume_id (add_files files vol) m)
                (some (add_files files vol)) (found ∙ rw q refl)
              ∙ ap (decode c) (add_files-lookup metadata_file files vol h)
              ∙ sym (read-by_volume m (some vol) here)
          | inr q ↦
              read-by_volume (insert meta.volume_id (add_files files vol) m)
                (lookup req.volume_id m) (found ∙ rw q refl)
              ∙ sym (read-by_volume m (lookup req.volume_id m) refl)
        ]
  ]

  module _ (again : c.unmarshal (c.marshal registered) ≡ some registered)
      (equal : c.deep_equal req.volume_context req.volume_context ≡ true) where
    register_in-unchanged :
        (vol : Files) (m : MemoryFs)
        → lookup req.volume_id m ≡ some vol
        → (register_in c registered vol m).0 ≡ ok false
        → Knows (register_in c registered vol m).1
    unfolding register_in from_node_publish_volume_request
    register_in-unchanged vol m e h = elim (Option-cases (lookup metadata_file vol)) [
      | inl t ↦ absurd (cc (rw (t, register_in) at h))
      | inr (json, t) ↦ elim (Option-cases (c.unmarshal json)) [
        | inl u ↦ absurd (cc (rw u at (rw (t, register_in) at h)))
        | inr (meta, u) ↦ elim (Bool-cases (c.deep_equal meta.volume_context req.volume_context)) [
          | inr d ↦ absurd (cc (rw d at (rw u at (rw (t, register_in) at h))))
          | inl d ↦
              let same : register_in c registered vol m ≡ (ok false, m) =
                rw (t, register_in) (rw u (rw d refl)) in
              subst (λ x. Knows (x.1)) (sym same)
                record {
                  meta = meta;
                  read = read-by_volume m (some vol) e ∙ ap (decode c) t ∙ rw (u, decode) refl;
                  same = d;
                }
        ]
      ]
    ]

    register_metadata-unchanged :
        (m : MemoryFs)
        → (register_metadata c registered m).0 ≡ ok false
        → Knows (register_metadata c registered m).1
    unfolding register_metadata register_in lookup from_node_publish_volume_request
    register_metadata-unchanged m h = elim (Option-cases (lookup registered.volume_id m)) [
      | inl e ↦ absurd (cc (rw (e, register_metadata) at h))
      | inr (vol, e) ↦
          rw (e, register_metadata) (register_in-unchanged vol m e (rw (e, register_metadata) at h))
    ]

    pub register_metadata-Knows :
        (m : MemoryFs) (b : Bool)
        → (register_metadata c registered m).0 ≡ ok b
        → Knows (register_metadata c registered m).1
    unfolding from_node_publish_volume_request
    register_metadata-Knows m true h = record {
      meta = registered;
      read = register_metadata-read c registered again m h;
      same = equal;
    }
    register_metadata-Knows m false h = register_metadata-unchanged m h
