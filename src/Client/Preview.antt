-- ===== src/Client/Preview.antt =====
-- internal/client/preview.go. `mime.ParseMediaType` and `utf8.Valid` are parameters. Sizes stay below
-- 2^63, so the counts are plain numbers; the limit is the int that the caller gives.
pub mod Chunks
use gatelet.Prelude.{
  ℕ, ◌+◌, ◌-◌, Bool, true, false, not, ◌||◌, Option, none, some, [], ◌++◌, ltb, if◌then◌else◌, ◌==◌,
  nat_eq, length, take, Bytes, codes, bytes_eq, starts_with, strip_suffix, ℤ, pos, pos_part, lebℤ,
}

abbrev pub default_preview_limit : ℕ
default_preview_limit = 4096

pub record Capture : Type 0 where
  pub content_type : Bytes
  pub limit : ℕ
  pub buf : Bytes
  pub size : ℕ

unfoldable pub new_capture : Bytes → ℤ → Capture
new_capture content_type limit = record {
  content_type = content_type;
  limit = if lebℤ limit (pos 0) then default_preview_limit else pos_part limit;
  buf = [];
  size = 0;
}

unfoldable pub write : Capture → Bytes → Capture
write c p =
    let remaining = c.limit - length c.buf in
    record c {
      size = c.size + length p;
      buf =
          if ltb 0 remaining
          then c.buf ++ (if ltb remaining (length p) then take remaining p else p)
          else c.buf;
    }

pub record BodyPreview : Type 0 where
  pub text : Bytes
  pub content_type : Bytes
  pub size : ℕ
  pub captured : ℕ
  pub omitted : Bool
  pub reason : Bytes

module _ (parse_media_type : Bytes → Option Bytes) (utf8_valid : Bytes → Bool) where
  has_suffix : Bytes → Bytes → Bool
  has_suffix suffix s = elim (strip_suffix suffix s) [ none ↦ false | some r ↦ true ]

  unfoldable pub is_text_content : Bytes → Bytes → Bool
  unfolding has_suffix
  is_text_content content_type sample = elim (parse_media_type content_type) [
    | none ↦ utf8_valid sample
    | some media ↦
        starts_with (codes "text/") media
        || (media == codes "application/json"
            || media == codes "application/xml"
            || media == codes "application/x-www-form-urlencoded"
            || media == codes "application/javascript")
        || has_suffix (codes "+json") media
        || has_suffix (codes "+xml") media
  ]

  unfoldable pub preview : Capture → BodyPreview
  preview c =
      if c.size == 0
      then record {
        text = [];
        content_type = c.content_type;
        size = c.size;
        captured = length c.buf;
        omitted = false;
        reason = [];
      }
      else if not (is_text_content c.content_type c.buf)
      then record {
        text = [];
        content_type = c.content_type;
        size = c.size;
        captured = length c.buf;
        omitted = true;
        reason = codes "binary body";
      }
      else record {
        text = c.buf;
        content_type = c.content_type;
        size = c.size;
        captured = length c.buf;
        omitted = ltb c.limit c.size;
        reason = if ltb c.limit c.size then codes "truncated" else [];
      }
