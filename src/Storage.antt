-- ===== src/Storage.antt =====
-- apps/api/src/storage/storage.service.ts: object keys and presigned URLs. A URL is what it grants.
use omnia_note.Prelude.{String, Bool, true, false, ◌&&◌, ◌==◌, str_eq, delete_where}
use omnia_note.World.{Uuid, ObjectKind, original, thumbnail, ObjectKey, World}

pub data Url : Type 0 where
  upload_url : ObjectKey → String → Url
  download_url : ObjectKey → Url

unfoldable pub build_object_key : Uuid → ObjectKind → Uuid → String → ObjectKey
build_object_key account_id kind uuid ext = record {
  account_id = account_id;
  kind = kind;
  uuid = uuid;
  ext = ext;
}

abbrev same_kind : ObjectKind → ObjectKind → Bool
same_kind original original = true
same_kind thumbnail thumbnail = true
same_kind _ _ = false

abbrev pub same_key : ObjectKey → ObjectKey → Bool
same_key a b =
    a.uuid == b.uuid
    && a.account_id == b.account_id
    && same_kind a.kind b.kind
    && str_eq a.ext b.ext

unfoldable pub delete_object : ObjectKey → World → World
delete_object key w = record w { objects = delete_where (same_key key) w.objects }
