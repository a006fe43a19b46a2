-- ===== src/IsoConfig/Load.antt =====
-- pkg/isoconfig/load.go and the `Reader` of pkg/isoconfig/reader.go: the metadata from the config-drive,
-- or else from the copy of an earlier boot. The locator, the file system, package path/filepath and the
-- parsing of a text as JSON are parameters.
pub mod Laws
use pfsense_agent.Base.{
  String, ◌<>◌, Bool, true, false, ◌&&◌, not, Option, none, some, Result, ok, err, Error, wrap,
  str_eq, if◌then◌else◌, Unit0,
}
use pfsense_agent.Json.{Json}
use pfsense_agent.IsoConfig.{VirtualMachineMetadata, IsoMetadata}
use pfsense_agent.IsoConfig.Decode.{decode_metadata}

-- What `Locate` returns, with the function that undoes a mount of its own.
pub record Located (S : Type 0) : Type 0 where
  pub dir : String
  pub failure : Option Error
  pub unmount : S → S

-- What `os.ReadFile` gives: `errors.Is(err, os.ErrNotExist)` is told apart.
pub data FileRead : Type 0 where
  content : String → FileRead
  absent : Error → FileRead
  unreadable : Error → FileRead

pub record Host (S : Type 0) : Type 0 where
  pub locate : S → Located S × S
  pub read_file : String → S → FileRead
  pub mkdir_all : String → S → Option Error × S
  pub write_file : String → String → S → Option Error × S
  pub rename : String → String → S → Option Error × S
  pub join : String → String → String
  pub dir_of : String → String
  pub parse : String → Result Json

module _ {S : Type 0} (host : Host S) where
  abbrev pub metadata_path : String → String
  metadata_path dir = host.join dir "pc-meta-data.json"

  read_parsed : Result VirtualMachineMetadata → Result IsoMetadata
  read_parsed (ok vm) = ok (some vm)
  read_parsed (err e) = err (wrap "parsing pc-meta-data.json: " e "")

  -- `json.Unmarshal(data, &vm)`
  unmarshalled : Result Json → Result VirtualMachineMetadata
  unmarshalled (ok v) = decode_metadata v
  unmarshalled (err e) = err e

  read_content : FileRead → Result IsoMetadata
  unfolding read_parsed unmarshalled
  read_content (content text) = read_parsed (unmarshalled (host.parse text))
  read_content (absent e) = ok none
  read_content (unreadable e) = err (wrap "reading pc-meta-data.json: " e "")

  -- `Reader.Read` in a directory.
  unfoldable pub read : String → S → Result IsoMetadata
  unfolding read_content
  read dir s = read_content (host.read_file (metadata_path dir) s)

  abbrev failed : String → Option Error → Option Error
  failed prefix none = none
  failed prefix (some e) = some (wrap prefix e "")

  -- Each step of `cacheCopy`, by how the step before it ended.
  cache_renamed : Option Error × S → Option Error × S
  cache_renamed (e, s) = (failed "renaming temp cache file: " e, s)

  cache_written : String → Option Error × S → Option Error × S
  unfolding cache_renamed
  cache_written cache_path (some e, s) = (some (wrap "writing temp cache file: " e ""), s)
  cache_written cache_path (none, s) =
      cache_renamed (host.rename (cache_path <> ".tmp") cache_path s)

  cache_in : String → String → Option Error × S → Option Error × S
  unfolding cache_written
  cache_in cache_path text (some e, s) = (some (wrap "creating cache dir: " e ""), s)
  cache_in cache_path text (none, s) =
      cache_written cache_path (host.write_file (cache_path <> ".tmp") text s)

  cache_content : String → FileRead → S → Option Error × S
  unfolding cache_in
  cache_content cache_path (content text) s =
      cache_in cache_path text (host.mkdir_all (host.dir_of cache_path) s)
  cache_content cache_path (absent e) s = (some (wrap "reading source file: " e ""), s)
  cache_content cache_path (unreadable e) s = (some (wrap "reading source file: " e ""), s)

  unfoldable pub cache_copy : String → String → S → Option Error × S
  unfolding cache_content
  cache_copy src_dir cache_path s =
      cache_content cache_path (host.read_file (metadata_path src_dir) s) s

  wrap_cached : Result IsoMetadata → Result IsoMetadata
  wrap_cached (ok meta) = ok meta
  wrap_cached (err e) = err (wrap "reading cached pc-meta-data.json: " e "")

  from_cache : String → S → Result IsoMetadata × S
  unfolding wrap_cached
  from_cache cache_path s = (wrap_cached (read (host.dir_of cache_path) s), s)

  -- By what the config-drive's directory holds.
  from_drive : String → String → Result IsoMetadata → S → Result IsoMetadata × S
  unfolding from_cache
  from_drive dir cache_path (ok (some vm)) s = (ok (some vm), (cache_copy dir cache_path s).1)
  from_drive dir cache_path (ok none) s = from_cache cache_path s
  from_drive dir cache_path (err e) s = from_cache cache_path s

  located : String → String → Option Error → S → Result IsoMetadata × S
  unfolding from_drive
  located cache_path dir (some e) s = from_cache cache_path s
  located cache_path dir none s =
      if str_eq dir "" then from_cache cache_path s else from_drive dir cache_path (read dir s) s

  -- `Load`; the deferred `unmount` comes last.
  unfoldable pub load : String → S → Result IsoMetadata × S
  unfolding located
  load cache_path s =
      let (found, s') = host.locate s in
      let (meta, s'') = located cache_path found.dir found.failure s' in (meta, found.unmount s'')
