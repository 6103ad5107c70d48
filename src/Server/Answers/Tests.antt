-- ===== src/Server/Answers/Tests.antt =====
-- Results of inline queries.
use tgbotd.Prelude.{map, ◌≡◌, refl, [], ◌∷◌}
use tgbotd.Prelude.Bytes.{codes, bytes_eq}
use tgbotd.Botapi.{ok, err, api, err_bad_request}
use tgbotd.Json as JsonTree
use tgbotd.Json.Reading.{find}
use tgbotd.Server.Answers.Laws.{head_of, parse_inline_results-read_head}
use tgbotd.Server.Answers.{
  InlineResult, first_non_empty, parse_inline_results, read_head, read_article, read_texts,
  read_media, parse_inline_result,
}

abbrev cached_sticker : JsonTree.Json
cached_sticker = JsonTree.object (
    (codes "type", JsonTree.str (codes "sticker"))
    ∷ (codes "id", JsonTree.str (codes "1"))
    ∷ (codes "sticker_file_id", JsonTree.str (codes "CAAD"))
    ∷ [])

-- A cached result has no URL, and is refused.
cached_refused :
    parse_inline_result cached_sticker
    ≡ err (api (err_bad_request (codes "inline result sticker missing url")))
unfolding parse_inline_result read_head read_media read_texts find bytes_eq first_non_empty
cached_refused = refl

abbrev article : JsonTree.Json
article = JsonTree.object (
    (codes "type", JsonTree.str (codes "article"))
    ∷ (codes "id", JsonTree.str (codes "1"))
    ∷ (codes "title", JsonTree.str (codes "T"))
    ∷ [])

article_read :
    parse_inline_result article
    ≡ ok (record {
      id = codes "1";
      kind = codes "article";
      title = codes "T";
      description = [];
      url = [];
      message = [];
    })
unfolding parse_inline_result read_head read_article find bytes_eq
article_read = refl

abbrev article_result : InlineResult
article_result = record {
  id = codes "1";
  kind = codes "article";
  title = codes "T";
  description = [];
  url = [];
  message = [];
}

parse_inline_results-read_head_example :
    map head_of (article_result ∷ []) ≡ map read_head (article ∷ [])
unfolding parse_inline_results parse_inline_result read_head read_article find bytes_eq
parse_inline_results-read_head_example =
    parse_inline_results-read_head (article ∷ []) (article_result ∷ []) refl
