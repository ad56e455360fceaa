-- ===== src/Mobile/NotePage/Saving.antt =====
-- apps/mobile/src/pages/NotePage.tsx: what is sent when a note is saved.
use omnia_note.Prelude.{
  ℕ, suc, ◌≡◌, refl, Bool, true, false, not, ◌&&◌, ◌||◌, is_some, none, some, List, [], ◌∷◌, ◌++◌,
  ◌+◌, arith, str_eq, trim, if◌then◌else◌,
}
use omnia_note.World.{Uuid}
use omnia_note.Mobile.Outbox.{Blob}
use omnia_note.Mobile.NotePage.{
  Form, Run, PhotoRun, Sent, Failure, Outcome, enqueues, creates_note, creates_photo, uploads,
  confirms, uploads_thumbnail, attaches, stays, goes_to_location, goes_to_inbox, attach_photos,
  save, message, has_photos,
}

-- The photos that the server is asked to attach, each with its note.
unfoldable pub attachments : List Sent → List (Uuid × Uuid)
attachments [] = []
attachments (attaches note photo ∷ ss) = (note, photo) ∷ attachments ss
attachments (enqueues input ∷ ss) = attachments ss
attachments (creates_note input ∷ ss) = attachments ss
attachments (creates_photo title location_id folder_id spot_id ∷ ss) = attachments ss
attachments (uploads b ∷ ss) = attachments ss
attachments (confirms b ∷ ss) = attachments ss
attachments (uploads_thumbnail ∷ ss) = attachments ss

-- The creation of a photo fails, or the upload of its file or the confirmation, where the server asks for it.
abbrev pub is_lost : PhotoRun → Bool
is_lost r =
    is_some r.create_error
    || r.gives_upload_url && (is_some r.upload_error || is_some r.confirm_error)

-- Each photo in turn, up to the first that is lost, or the first whose attachment fails, this one included.
unfoldable pub up_to_failure : Run → ℕ → List Blob → List (Uuid × Uuid)
up_to_failure run i [] = []
up_to_failure run i (b ∷ bs) =
    let later = up_to_failure run (suc i) bs in
    let r = run.photo i in
    if is_lost r then [] else (run.note_id, r.id) ∷ (if is_some r.attach_error then [] else later)

unfoldable pub all_attached : Run → ℕ → List Blob → Bool
all_attached run i [] = true
all_attached run i (b ∷ bs) =
    let r = run.photo i in
    not (is_lost r) && not (is_some r.attach_error) && all_attached run (suc i) bs

abbrev pub leaves : Outcome → Bool
leaves (stays error) = false
leaves (goes_to_location id) = true
leaves goes_to_inbox = true

-- The form has a title and photos, the device is online and the server creates the note.
abbrev pub is_under_way : Form → Run → Bool
is_under_way f run =
    not (str_eq (trim f.title) "")
    && has_photos f.photos
    && run.online
    && not (is_some run.note_error)

abbrev is_note : Sent → ℕ
is_note (creates_note input) = 1
is_note _ = 0

-- How often the server is asked to create the note.
unfoldable pub count_notes : List Sent → ℕ
count_notes [] = 0
count_notes (s ∷ ss) = is_note s + count_notes ss

count_notes-append : (xs ys : List Sent) → count_notes (xs ++ ys) ≡ count_notes xs + count_notes ys
unfolding count_notes
count_notes-append [] ys = omega arith
count_notes-append (x ∷ xs) ys = omega (arith, count_notes-append xs ys)

count_notes-attach_photos :
    (f : Form) (run : Run) (i : ℕ) (bs : List Blob)
    → count_notes (attach_photos f run i bs).sent ≡ 0
unfolding attach_photos count_notes
count_notes-attach_photos f run i [] = refl
count_notes-attach_photos f run i (b ∷ bs) =
    ground (arith, count_notes-attach_photos f run (suc i) bs)

-- A note with a title and photos that is saved while online asks the server to create it once, whatever fails
-- afterwards.
save_creates :
    (f : Form) (run : Run)
    → str_eq (trim f.title) "" ≡ false
    → has_photos f.photos ≡ true
    → run.online ≡ true
    → count_notes (save f run).0 ≡ 1
unfolding save count_notes
save_creates f run titled photos online = ground (arith, count_notes-attach_photos f run 0 f.photos)

-- If a note with photos was created and a later step fails, the page stays with the message, and saving it
-- again, online, asks the server to create the note a second time.
pub save_again_creates :
    (f : Form) (run again : Run) (failure : Failure)
    → str_eq (trim f.title) "" ≡ false
    → has_photos f.photos ≡ true
    → run.online ≡ true
    → run.note_error ≡ none
    → (attach_photos f run 0 f.photos).error ≡ some failure
    → again.online ≡ true
    → ((save f run).1 ≡ stays (message failure))
      × (count_notes ((save f run).0 ++ (save f again).0) ≡ 2)
save_again_creates f run again failure titled photos online fine failed online' = (
  unfold save in rw (titled, photos, online, fine, failed) refl,
  omega (
    arith,
    count_notes-append (save f run).0 (save f again).0,
    save_creates f run titled photos online,
    save_creates f again titled photos online',
  ),
)
