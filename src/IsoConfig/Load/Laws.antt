-- ===== src/IsoConfig/Load/Laws.antt =====
-- Where the metadata that pkg/isoconfig/load.go gives comes from.
use pfsense_agent.Base.{
  String, ◌≡◌, refl, false, Option, none, some, Result, ok, err, Error, str_eq, if◌then◌else◌,
  Bool-cases, inl, inr,
}
use pfsense_agent.IsoConfig.{VirtualMachineMetadata, IsoMetadata}
use pfsense_agent.Json.{obj}
use pfsense_agent.IsoConfig.Decode.Laws.{metadata_fields, decode_metadata_lem}
use pfsense_agent.IsoConfig.Load.{
  content, metadata_path, read_content, read_parsed, Located, Host, read, wrap_cached, from_drive,
  located, load,
}

module _ {S : Type 0} (host : Host S) where
  -- The metadata on the config-drive: some only if a directory was found and its file reads as metadata.
  on_drive : Result IsoMetadata → Option VirtualMachineMetadata
  on_drive (ok meta) = meta
  on_drive (err e) = none

  pub drive_metadata : Located S → S → Option VirtualMachineMetadata
  unfolding on_drive
  drive_metadata found s = elim found.failure [
    | some e ↦ none
    | none ↦ if str_eq found.dir "" then none else on_drive (read host found.dir s)
  ]

  -- The drive's metadata, or else what the cache's directory holds, where an unreadable cache fails.
  pub preferred : String → Option VirtualMachineMetadata → S → Result IsoMetadata
  unfolding wrap_cached
  preferred cache_path (some vm) s = ok (some vm)
  preferred cache_path none s = wrap_cached host (read host (host.dir_of cache_path) s)

  from_drive-preferred :
      (dir cache_path : String) (r : Result IsoMetadata) (s : S)
      → (from_drive host dir cache_path r s).0 ≡ preferred cache_path (on_drive r) s
  unfolding from_drive preferred on_drive
  from_drive-preferred dir cache_path (ok (some vm)) s = refl
  from_drive-preferred dir cache_path (ok none) s = refl
  from_drive-preferred dir cache_path (err e) s = refl

  located-preferred :
      (cache_path dir : String) (o : Option Error) (u : S → S) (s : S)
      → (located host cache_path dir o s).0
        ≡ preferred cache_path (drive_metadata (record { dir = dir; failure = o; unmount = u }) s) s
  unfolding located drive_metadata preferred
  located-preferred cache_path dir (some e) u s = refl
  located-preferred cache_path dir none u s = elim (Bool-cases (str_eq dir "")) [
    | inl nowhere ↦ rw nowhere refl
    | inr there ↦ rw there (from_drive-preferred dir cache_path (read host dir s) s)
  ]

  -- The metadata is the config-drive's if a directory was found and its file can be read and parsed,
  -- whether or not it could be cached, and otherwise what is read in the cache's directory; and the
  -- drive is unmounted last, on every path.
  pub load_lem :
      (cache_path : String) (s : S)
      → ((load host cache_path s).0
          ≡ preferred cache_path
              (drive_metadata (host.locate s).0 (host.locate s).1)
              (host.locate s).1)
        × ((t : S) × ((load host cache_path s).1 ≡ (host.locate s).0.unmount t))
  unfolding load
  load_lem cache_path s = (
    located-preferred cache_path (host.locate s).0.dir (host.locate s).0.failure
        (host.locate s).0.unmount (host.locate s).1,
    (_, refl),
  )

  -- A drive that is found, with a file that is the metadata written by its tags, gives that metadata.
  pub load_written :
      (cache_path text : String) (vm : VirtualMachineMetadata) (s : S)
      → (host.locate s).0.failure ≡ none
      → str_eq (host.locate s).0.dir "" ≡ false
      → host.read_file (metadata_path host (host.locate s).0.dir) (host.locate s).1 ≡ content text
      → host.parse text ≡ ok (obj (metadata_fields vm))
      → (load host cache_path s).0 ≡ ok (some vm)
  unfolding load located read read_content read_parsed from_drive
  load_written cache_path text vm s found there file parsed =
      rw (found, there, file, parsed, decode_metadata_lem vm) refl
