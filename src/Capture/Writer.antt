-- ===== src/Capture/Writer.antt =====
-- The writer of captures, `handle_capture_msg` of crates/ostk-cache-core/src/capture.rs. The directories
-- of captures, all under one root, are a list of their files in the order that reading the root gives,
-- beside the shards and the estimate of the rotation, GLOBAL_ROTATION; what the calls of the file
-- system answer is the record Io, and SHA-256 is an argument.
pub mod Absent
use ostk_cache.Prelude.{
  ℕ, ◌+◌, ◌%◌, ◌^◌, Bool, true, false, not, ◌||◌, List, [], ◌∷◌, Option, none, some, is_some, Text,
  codes, any, length, map, retain, if◌then◌else◌,
}
use ostk_cache.Capture.Rotation.{EntryDir, Root, same_dir, touch, Estimate, record_and_maybe_rotate}

pub record CapturedHeader : Type 0 where
  pub name : Text
  pub value : Text

pub record CapturedBlob : Type 0 where
  pub file : Text
  pub bytes : ℕ
  pub sha256 : Text

pub record CaptureMetadata : Type 0 where
  pub id : Text
  pub ts : Text
  pub session : Text
  pub method : Text
  pub path : Text
  pub status : Option ℕ
  pub is_sse : Option Bool
  pub elapsed_ms : Option ℕ
  pub request_headers : List CapturedHeader
  pub response_headers : List CapturedHeader
  pub request_in : CapturedBlob
  pub request_out : Option CapturedBlob
  pub response : Option CapturedBlob

pub data CaptureMsg : Type 0 where
  start : EntryDir → ℕ → Text → CaptureMetadata → CaptureMsg
  outbound : EntryDir → Text → CaptureMsg
  finish : EntryDir → ℕ → Bool → List CapturedHeader → Text → ℕ → CaptureMsg

-- The files of a capture. The metadata are none where there is no such file, and none within where
-- what it holds is not read back as metadata.
pub record EntryFiles : Type 0 where
  pub request_in : Option Text
  pub request_out : Option Text
  pub response : Option Text
  pub metadata : Option (Option CaptureMetadata)

abbrev pub no_files : EntryFiles
no_files = record { request_in = none; request_out = none; response = none; metadata = none }

pub record Writer : Type 0 where
  pub dirs : List (EntryDir × EntryFiles)
  pub shards : List Text
  pub estimate : Estimate
  pub rotated_inflight_drops : ℕ

pub data Write : Type 0 where
  done not_found failed : Write

-- The answers of the calls that a message makes: whether the directory could be made, how its body
-- was written, whether its metadata were, and which directories the rotation can delete.
pub record Io : Type 0 where
  pub mkdir : Bool
  pub body : Write
  pub metadata : Bool
  pub removable : EntryDir → Bool

unfoldable pub exists : EntryDir → List (EntryDir × EntryFiles) → Bool
unfolding any
exists dir dirs = any (λ d. same_dir d.0 dir) dirs

-- `create_dir_all`
unfoldable pub create_dir : EntryDir → List (EntryDir × EntryFiles) → List (EntryDir × EntryFiles)
unfolding exists
create_dir dir dirs = if exists dir dirs then dirs else (dir, no_files) ∷ dirs

-- A write into a directory, where there is one.
unfoldable pub write_in :
    EntryDir
    → (EntryFiles → EntryFiles)
    → List (EntryDir × EntryFiles)
    → List (EntryDir × EntryFiles)
unfolding same_dir
write_in dir f [] = []
write_in dir f ((d, files) ∷ dirs) =
    let rest = write_in dir f dirs in
    if same_dir d dir then (d, f files) ∷ rest else (d, files) ∷ rest

-- What the rotation counts: a directory in a shard, or one with metadata.
abbrev pub is_entry : EntryDir × EntryFiles → Bool
is_entry (d, files) = is_some d.shard || is_some files.metadata

-- What the rotation reads of the directories.
abbrev pub root_of : List (EntryDir × EntryFiles) → List Text → Root
root_of dirs shards = record {
  entries = map (λ (d : EntryDir × EntryFiles). d.0) (retain is_entry dirs);
  shards = shards;
}

-- The directories that are no entries, and those of the entries that are left.
abbrev pub remaining : Root → List (EntryDir × EntryFiles) → List (EntryDir × EntryFiles)
remaining root dirs = retain (λ d. not (is_entry d) || any (λ e. same_dir e d.0) root.entries) dirs

unfoldable pub drop_one : Writer → Writer
drop_one w = record w { rotated_inflight_drops = (w.rotated_inflight_drops + 1) % 2 ^ 64 }

abbrev pub patch :
    ℕ → Bool → ℕ → List CapturedHeader → Option CapturedBlob → CaptureMetadata → CaptureMetadata
patch status is_sse elapsed_ms headers blob meta = record meta {
  status = some status;
  is_sse = some is_sse;
  elapsed_ms = some elapsed_ms;
  response_headers = headers;
  response = blob;
}

-- Metadata that can be read are patched and written again.
abbrev pub patched :
    (CaptureMetadata → CaptureMetadata)
    → Option (Option CaptureMetadata)
    → Option (Option CaptureMetadata)
patched f none = none
patched f (some none) = some none
patched f (some (some meta)) = some (some (f meta))

abbrev pub update_metadata : Bool → (CaptureMetadata → CaptureMetadata) → EntryFiles → EntryFiles
update_metadata false f files = files
update_metadata true f files = record files { metadata = patched f files.metadata }

-- The directory and its shard are there.
abbrev pub made : EntryDir → Writer → Writer
made dir w = record w { dirs = create_dir dir w.dirs; shards = touch dir.shard w.shards }

-- `GLOBAL_ROTATION.record_and_maybe_rotate`
unfoldable pub rotate : (EntryDir → Bool) → ℕ → Writer → Writer
rotate removable max_entries w =
    let (estimate, root) =
      record_and_maybe_rotate removable max_entries w.estimate (root_of w.dirs w.shards) in
    record w { dirs = remaining root w.dirs; shards = root.shards; estimate = estimate }

abbrev pub write : EntryDir → (EntryFiles → EntryFiles) → Writer → Writer
write dir f w = record w { dirs = write_in dir f w.dirs }

-- The body, the rotation, the metadata; a body that is not written ends it.
unfoldable pub start_body :
    Write → Bool → (EntryDir → Bool) → EntryDir → ℕ → Text → CaptureMetadata → Writer → Writer
unfolding create_dir write_in rotate
start_body done saved removable dir max_entries body meta w =
    let begun = write dir (λ files. record files { request_in = some body }) (made dir w) in
    let rotated = rotate removable max_entries begun in
    if saved
    then write dir (λ files. record files { metadata = some (some meta) }) rotated
    else rotated
start_body not_found saved removable dir max_entries body meta w = made dir w
start_body failed saved removable dir max_entries body meta w = made dir w

unfoldable pub outbound_body : Write → EntryDir → Text → Writer → Writer
unfolding write_in drop_one
outbound_body done dir payload w =
    write dir (λ files. record files { request_out = some payload }) w
outbound_body not_found dir payload w = drop_one w
outbound_body failed dir payload w = w

module _ (sha256_hex : Text → Text) where
  abbrev pub blob_of : Text → Text → CapturedBlob
  blob_of file body = record { file = file; bytes = length body; sha256 = sha256_hex body }

  unfoldable pub finish_body :
      Write
      → Bool
      → (Option CapturedBlob → CaptureMetadata → CaptureMetadata)
      → EntryDir
      → Text
      → Writer
      → Writer
  unfolding write_in drop_one
  finish_body done saved f dir body w = record w {
    dirs =
        write_in dir
          (λ files.
            update_metadata saved (f (some (blob_of (codes "response.body") body)))
              (record files { response = some body }))
          w.dirs;
  }
  finish_body not_found saved f dir body w = drop_one w
  finish_body failed saved f dir body w = record w {
    dirs = write_in dir (update_metadata saved (f none)) w.dirs;
  }

  unfoldable pub handle_capture_msg : Io → CaptureMsg → Writer → Writer
  unfolding start_body outbound_body finish_body exists drop_one
  handle_capture_msg io (start dir max_entries body meta) w =
      if io.mkdir
      then start_body io.body io.metadata io.removable dir max_entries body meta w
      else w
  handle_capture_msg io (outbound dir payload) w =
      if exists dir w.dirs then outbound_body io.body dir payload w else drop_one w
  handle_capture_msg io (finish dir status is_sse headers body elapsed_ms) w =
      if exists dir w.dirs
      then finish_body io.body io.metadata (patch status is_sse elapsed_ms headers) dir body w
      else drop_one w

  unfoldable pub handle_all : List (Io × CaptureMsg) → Writer → Writer
  unfolding handle_capture_msg
  handle_all [] w = w
  handle_all ((io, msg) ∷ msgs) w = handle_all msgs (handle_capture_msg io msg w)
