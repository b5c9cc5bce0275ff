-- ===== src/Registry/Pull.antt =====
-- Pull of pkg/registry/client.go: which of the image's blobs is read.
use csi_driver_trusted_ca.Common.{
  ◌≡◌, ◌↔◌, refl, ◌∙◌, ap, Bool, true, false, ◌||◌, List, [], ◌∷◌, ◌++◌, Option, none, some, Bytes,
  codes, ◌=?◌, list_eq, nat_eq, if◌then◌else◌, All, Bool-cases, inl, inr,
}
use csi_driver_trusted_ca.Registry.{clean_reference}
use csi_driver_trusted_ca.Registry.Client.{Answer, answer, refused}

pub record Descriptor : Type 0 where
  pub media_type : Bytes
  pub digest : Bytes

abbrev pub media_type_image_layer : Bytes
media_type_image_layer = codes "application/vnd.oci.image.layer.v1.tar"

abbrev pub media_type_image_layer_gzip : Bytes
media_type_image_layer_gzip = codes "application/vnd.oci.image.layer.v1.tar+gzip"

unfoldable pub is_layer : Descriptor → Bool
is_layer d =
    (d.media_type =? media_type_image_layer) || (d.media_type =? media_type_image_layer_gzip)

-- the loop over the descriptors, up to its break
unfoldable pub tarball_descriptor : List Descriptor → Option Descriptor
tarball_descriptor [] = none
tarball_descriptor (d ∷ descriptors) = if is_layer d then some d else tarball_descriptor descriptors

pub data PullError : Type 0 where
  invalid_reference : Bytes → PullError
  not_copied : Bytes → PullError
  no_layer : PullError
  not_fetched : Bytes → Bytes → PullError
  not_gzip : Bytes → Option Bytes → PullError

-- an archive to read, or an error
pub data Pulled (S : Type 0) : Type 0 where
  opened : S → Pulled S
  failed : PullError → Pulled S

-- The calls of the libraries. R is a resolver, V a reference and S a stream of data. Closing a stream
-- may fail.
pub record Remote (R V S : Type 0) : Type 0 where
  pub parse_reference : Bytes → Answer V
  pub copy : R → V → Answer (Descriptor × List Descriptor)
  pub fetch : Descriptor → Answer S
  pub gzip_reader : S → Answer S
  pub close : S → Option Bytes

-- the descriptor that is first of those with the type of a layer
pub record FirstLayer (descriptors : List Descriptor) (d : Descriptor) : Type 0 where
  pub before : List Descriptor
  pub after : List Descriptor
  pub place : descriptors ≡ before ++ d ∷ after
  pub others : All (λ x. is_layer x ≡ false) before
  pub layer : is_layer d ≡ true

tarball_descriptor-FirstLayer :
    (descriptors : List Descriptor) (d : Descriptor)
    → tarball_descriptor descriptors ≡ some d
    → FirstLayer descriptors d
unfolding tarball_descriptor
tarball_descriptor-FirstLayer [] d h = absurd (cc)
tarball_descriptor-FirstLayer (x ∷ xs) d h = elim (Bool-cases (is_layer x)) [
  | inl e ↦
      let same : some x ≡ some d = rw e at h in
      record { before = []; after = xs; place = cc; others = tt; layer = cc }
  | inr e ↦
      let r = tarball_descriptor-FirstLayer xs d (rw e at h) in
      record {
        before = x ∷ r.before;
        after = r.after;
        place = ap (λ t. x ∷ t) r.place;
        others = (e, r.others);
        layer = r.layer;
      }
]

tarball_descriptor-append :
    (before after : List Descriptor) (d : Descriptor)
    → All (λ x. is_layer x ≡ false) before
    → is_layer d ≡ true
    → tarball_descriptor (before ++ d ∷ after) ≡ some d
unfolding tarball_descriptor
tarball_descriptor-append [] after d hb hd = rw hd refl
tarball_descriptor-append (x ∷ before) after d (hx, hb) hd =
    rw hx (tarball_descriptor-append before after d hb hd)

module _ {R V S : Type 0} (lib : Remote R V S) where
  abbrev pub unzipped : S → Answer S → Pulled S
  unzipped data_reader (answer stream) = opened stream
  unzipped data_reader (refused e) = failed (not_gzip e (lib.close data_reader))

  unfoldable pub open_tar : Descriptor → S → Pulled S
  open_tar d data_reader =
      if d.media_type =? media_type_image_layer
      then opened data_reader
      else unzipped data_reader (lib.gzip_reader data_reader)

  abbrev pub fetched : Descriptor → Answer S → Pulled S
  fetched d (refused e) = failed (not_fetched d.digest e)
  fetched d (answer data_reader) = open_tar d data_reader

  abbrev pub read_layer : Option Descriptor → Pulled S
  read_layer none = failed no_layer
  read_layer (some d) = fetched d (lib.fetch d)

  abbrev pub copied : Answer (Descriptor × List Descriptor) → Pulled S
  copied (refused e) = failed (not_copied e)
  copied (answer (manifest, layers)) = read_layer (tarball_descriptor (manifest ∷ layers))

  abbrev pub referred : R → Answer V → Pulled S
  referred resolver (refused e) = failed (invalid_reference e)
  referred resolver (answer ref) = copied (lib.copy resolver ref)

  unfoldable pub pull : R → Bytes → Pulled S
  pull resolver ref = referred resolver (lib.parse_reference (clean_reference ref))

  -- what a stream that is opened comes from
  pub record Opens (resolver : R) (ref : Bytes) (stream : S) : Type 0 where
    pub version : V
    pub manifest : Descriptor
    pub layers : List Descriptor
    pub descriptor : Descriptor
    pub data_reader : S
    pub valid : lib.parse_reference (clean_reference ref) ≡ answer version
    pub copy_eq : lib.copy resolver version ≡ answer (manifest, layers)
    pub chosen : FirstLayer (manifest ∷ layers) descriptor
    pub fetch_eq : lib.fetch descriptor ≡ answer data_reader
    pub open_eq : open_tar descriptor data_reader ≡ opened stream

  Opens-pull :
      (resolver : R) (ref : Bytes) (stream : S)
      → Opens resolver ref stream
      → pull resolver ref ≡ opened stream
  unfolding pull
  Opens-pull resolver ref stream o =
      ap (referred resolver) o.valid
      ∙ ap copied o.copy_eq
      ∙ ap read_layer (
          ap tarball_descriptor o.chosen.place
          ∙ tarball_descriptor-append o.chosen.before o.chosen.after o.descriptor o.chosen.others
              o.chosen.layer)
      ∙ ap (fetched o.descriptor) o.fetch_eq
      ∙ o.open_eq

  -- the answers are taken in turn
  pull-Opens :
      (resolver : R) (ref : Bytes) (stream : S)
      → pull resolver ref ≡ opened stream
      → Opens resolver ref stream
  unfolding pull
  pull-Opens resolver ref stream h = by_reference (lib.parse_reference (clean_reference ref)) refl h
    where
      by_fetch :
          (v : V) (m : Descriptor) (ls : List Descriptor) (d : Descriptor) (a : Answer S)
          → lib.parse_reference (clean_reference ref) ≡ answer v
          → lib.copy resolver v ≡ answer (m, ls)
          → tarball_descriptor (m ∷ ls) ≡ some d
          → lib.fetch d ≡ a
          → fetched d a ≡ opened stream
          → Opens resolver ref stream
      by_fetch v m ls d (refused e) p q t f g = absurd (cc)
      by_fetch v m ls d (answer r) p q t f g = record {
        version = v;
        manifest = m;
        layers = ls;
        descriptor = d;
        data_reader = r;
        valid = p;
        copy_eq = q;
        chosen = tarball_descriptor-FirstLayer (m ∷ ls) d t;
        fetch_eq = f;
        open_eq = g;
      }

      by_layer :
          (v : V) (m : Descriptor) (ls : List Descriptor) (o : Option Descriptor)
          → lib.parse_reference (clean_reference ref) ≡ answer v
          → lib.copy resolver v ≡ answer (m, ls)
          → tarball_descriptor (m ∷ ls) ≡ o
          → read_layer o ≡ opened stream
          → Opens resolver ref stream
      by_layer v m ls none p q t g = absurd (cc)
      by_layer v m ls (some d) p q t g = by_fetch v m ls d (lib.fetch d) p q t refl g

      by_copy :
          (v : V) (a : Answer (Descriptor × List Descriptor))
          → lib.parse_reference (clean_reference ref) ≡ answer v
          → lib.copy resolver v ≡ a
          → copied a ≡ opened stream
          → Opens resolver ref stream
      by_copy v (refused e) p q g = absurd (cc)
      by_copy v (answer (m, ls)) p q g = by_layer v m ls (tarball_descriptor (m ∷ ls)) p q refl g

      by_reference :
          (a : Answer V)
          → lib.parse_reference (clean_reference ref) ≡ a
          → referred resolver a ≡ opened stream
          → Opens resolver ref stream
      by_reference (refused e) p g = absurd (cc)
      by_reference (answer v) p g = by_copy v (lib.copy resolver v) p refl g

  -- Pull opens a stream exactly if the cleaned reference is valid, the image is copied with a manifest
  -- and layers, and the stream is what is opened of the blob of the first descriptor, the manifest's
  -- before the layers', whose type is that of a layer, compressed or not.
  pub pull_iff :
      (resolver : R) (ref : Bytes) (stream : S)
      → (pull resolver ref ≡ opened stream) ↔ Opens resolver ref stream
  pull_iff resolver ref stream = (pull-Opens resolver ref stream, Opens-pull resolver ref stream)
