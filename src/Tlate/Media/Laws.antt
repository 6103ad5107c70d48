-- ===== src/Tlate/Media/Laws.antt =====
-- What internal/tlate/media.go leaves alone in a message, which of its fields it fills, and that its file ids name
-- the file.
use tgbotd.Prelude.{◌≡◌, refl, Option, none, some, arith}
use tgbotd.Prelude.Bytes.{Bytes}
use tgbotd.Botapi.Types.{Message}
use tgbotd.Tlate.Telegram.{
  DocumentObj, MessageMedia, media_photo, media_document, media_contact, media_geo, media_geo_live,
  media_venue, media_dice, media_poll, other_media,
}
use tgbotd.Tlate.Media.{fill_media}
use tgbotd.Tlate.Media.Documents.{Facts, set_document, fill_from_document}
use tgbotd.Botapi.Media.{PhotoSize}

set_document-chat :
    (bm : Message) (d : DocumentObj) (f : Facts) (thumb : Option PhotoSize) (fid uid : Bytes)
    → (set_document bm d f thumb fid uid).chat ≡ bm.chat
unfolding set_document
set_document-chat bm d f thumb fid uid = ground arith

pub fill_media-chat : (bm : Message) (media : MessageMedia) → (fill_media bm media).chat ≡ bm.chat
unfolding fill_media fill_from_document
fill_media-chat bm (media_photo none) = refl
fill_media-chat bm (media_photo (some p)) = refl
fill_media-chat bm (media_document none) = refl
fill_media-chat bm (media_document (some d)) = set_document-chat bm d _ _ _ _
fill_media-chat bm (media_contact phone first last vcard id) = refl
fill_media-chat bm (media_geo none) = refl
fill_media-chat bm (media_geo (some pt)) = refl
fill_media-chat bm (media_geo_live none period heading radius) = refl
fill_media-chat bm (media_geo_live (some pt) period heading radius) = refl
fill_media-chat bm (media_venue geo title address id kind) = refl
fill_media-chat bm (media_dice emoticon value) = refl
fill_media-chat bm (media_poll none results) = refl
fill_media-chat bm (media_poll (some p) results) = refl
fill_media-chat bm other_media = refl
