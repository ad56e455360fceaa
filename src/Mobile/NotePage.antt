-- ===== src/Mobile/NotePage.antt =====
-- apps/mobile/src/pages/NotePage.tsx: a new note, saved through the outbox, or at once if it has photos.
pub mod Saving
use omnia_note.Prelude.{
  ℕ, suc, zero, String, Bool, true, false, not, ◌&&◌, ◌||◌, Option, none, some, List, [], ◌∷◌, ◌++◌,
  ◌==◌, ◌-◌, str_eq, trim, is_some, insert, concat, if◌then◌else◌,
}
use Prim.Native.Char.{code}
use Prim.Native.String
use omnia_note.World.{Uuid}
use omnia_note.Mobile.Outbox.{Blob}
use omnia_note.Mobile.TagsField.{parse_tags}

pub record Form : Type 0 where
  pub title : String
  pub body : String
  pub tags_text : String
  pub location_id : String
  pub folder_id : String
  pub spot_id : String
  pub photos : List Blob

-- `s || undefined`
abbrev pub or_undefined : String → Option String
or_undefined s = if str_eq s "" then none else some s

-- `tagNames.length ? tagNames : undefined`
abbrev pub names_or_undefined : List String → Option (List String)
names_or_undefined [] = none
names_or_undefined (t ∷ ts) = some (t ∷ ts)

-- What the page sends to create the note, or puts into the outbox.
pub record NoteInput : Type 0 where
  pub title : String
  pub body : Option String
  pub location_id : Option String
  pub folder_id : Option String
  pub spot_id : Option String
  pub tag_names : Option (List String)

unfoldable pub note_input : Form → NoteInput
note_input f = record {
  title = trim f.title;
  body = or_undefined (trim f.body);
  location_id = or_undefined f.location_id;
  folder_id = or_undefined f.folder_id;
  spot_id = or_undefined f.spot_id;
  tag_names = names_or_undefined (parse_tags f.tags_text);
}

-- The calls that the page makes, with the ids of the items that the server gave.
pub data Sent : Type 0 where
  enqueues : NoteInput → Sent
  creates_note : NoteInput → Sent
  creates_photo : (title : String) → (location_id folder_id spot_id : Option String) → Sent
  uploads confirms : Blob → Sent
  uploads_thumbnail : Sent
  attaches : (note photo : Uuid) → Sent

-- An Error with its message, or anything else.
abbrev pub Failure : Type 0
Failure = Option String

abbrev pub message : Failure → String
message none = "Couldn't save — try again."
message (some m) = m

-- What happens to one photo: each step fails with an error, or does not.
pub record PhotoRun : Type 0 where
  pub id : Uuid
  pub create_error : Option Failure
  pub gives_upload_url : Bool
  pub upload_error : Option Failure
  pub confirm_error : Option Failure
  pub sends_thumbnail : Bool
  pub attach_error : Option Failure

pub record Run : Type 0 where
  pub online : Bool
  pub note_id : Uuid
  pub note_error : Option Failure
  pub photo : ℕ → PhotoRun

-- How far a sequence of awaits came: what was sent, and the error that ended it, if any.
pub record Progress : Type 0 where
  pub sent : List Sent
  pub error : Option Failure

abbrev pub after_sending : List Sent → Progress → Progress
after_sending sent p = record p { sent = sent ++ p.sent }

abbrev pub done : Progress
done = record { sent = []; error = none }

abbrev pub failed : Failure → Progress
failed f = record { sent = []; error = some f }

-- `await` of a call that may fail, and what follows.
abbrev pub await : Sent → Option Failure → Progress → Progress
await call none rest = after_sending (call ∷ []) rest
await call (some f) rest = record { sent = call ∷ []; error = some f }

-- `if (uploadUrl) …` for the file; the thumbnail is best effort.
abbrev pub upload : Blob → PhotoRun → Progress → Progress
upload blob r rest =
    if r.gives_upload_url
    then await (uploads blob) r.upload_error (await (confirms blob) r.confirm_error rest)
    else rest

abbrev pub thumbnail : PhotoRun → Progress → Progress
thumbnail r rest = if r.sends_thumbnail then after_sending (uploads_thumbnail ∷ []) rest else rest

abbrev pub creation : Form → Sent
creation f =
    creates_photo (trim f.title) (or_undefined f.location_id) (or_undefined f.folder_id)
      (or_undefined f.spot_id)

-- The loop over the photos; `i` counts them.
unfoldable pub attach_photos : Form → Run → ℕ → List Blob → Progress
attach_photos f run i [] = done
attach_photos f run i (blob ∷ blobs) =
    let rest = attach_photos f run (suc i) blobs in
    let r = run.photo i in
    await (creation f) r.create_error
      (upload blob r (thumbnail r (await (attaches run.note_id r.id) r.attach_error rest)))

-- The page after a tap on save.
pub data Outcome : Type 0 where
  stays : (error : String) → Outcome
  goes_to_location : (id : String) → Outcome
  goes_to_inbox : Outcome

abbrev pub leave : Form → Outcome
leave f = if str_eq f.location_id "" then goes_to_inbox else goes_to_location f.location_id

abbrev pub finish : Form → Progress → List Sent × Outcome
finish f p = elim p.error [ none ↦ (p.sent, leave f) | some e ↦ (p.sent, stays (message e)) ]

abbrev pub has_photos : List Blob → Bool
has_photos [] = false
has_photos (b ∷ bs) = true

-- Putting an entry into the outbox is local, and does not fail here.
unfoldable pub save : Form → Run → List Sent × Outcome
unfolding note_input attach_photos
save f run =
    if str_eq (trim f.title) ""
    then ([], stays "Give the note a title.")
    else if not (has_photos f.photos)
    then (enqueues (note_input f) ∷ [], leave f)
    else if not run.online
    then ([], stays "You're offline — remove the attached photos, or reconnect, to save with them.")
    else finish f
        (await (creates_note (note_input f)) run.note_error (attach_photos f run 0 f.photos))

-- `pendingPhotos.filter((_, i) => i !== index)`
unfoldable pub remove_pending_photo : ℕ → List Blob → List Blob
remove_pending_photo index [] = []
remove_pending_photo zero (b ∷ bs) = bs
remove_pending_photo (suc index) (b ∷ bs) = b ∷ remove_pending_photo index bs

-- `prev.endsWith("\n")`
abbrev pub ends_with_newline : String → Bool
ends_with_newline String.[] = false
ends_with_newline (String.◌∷◌ ch s) =
    let rest = ends_with_newline s in if str_eq s "" then code ch == 10 else rest

unfoldable pub append_dictated_text : String → String → String
append_dictated_text text prev =
    if str_eq (trim text) ""
    then prev
    else if not (str_eq prev "") && not (ends_with_newline prev)
    then concat (prev ∷ " " ∷ trim text ∷ [])
    else concat (prev ∷ trim text ∷ [])
