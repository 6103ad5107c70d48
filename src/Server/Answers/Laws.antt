-- ===== src/Server/Answers/Laws.antt =====
-- The results of an inline query and the entries that they are read from.
use tgbotd.Prelude.{
  ◌≡◌, refl, sym, ap, ◌∙◌, List, [], ◌∷◌, map, Option, none, some, Bool-cases, inl, inr,
}
use tgbotd.Prelude.Bytes.{Bytes, codes, bytes_eq, bytes_eq→eq}
use tgbotd.Botapi.{ok, Result-cases, err≢ok, ok-injective, ◌>>=◌}
use tgbotd.Json as JsonTree
use tgbotd.Json.Reading.{find, struct_fields, text_value}
use tgbotd.Server.Send.Groups.{◌>>?◌}
use tgbotd.Server.Answers.{
  InlineResult, read_head, read_article, read_media, content_text, article_or_bad, media_or_bad,
  media_of_url, first_non_empty, is_media_kind, type_and_id, result_of_kind, parse_inline_result,
  parse_inline_results,
}

-- The type and the id of a result, as `read_head` reads them.
abbrev pub head_of : InlineResult → Option (Bytes × Bytes)
head_of r = some (r.kind, r.id)

-- The result, if there is one, is of this type and has this id.
abbrev HasHead : Bytes → Bytes → Option InlineResult → Type 0
HasHead kind id none = Unit
HasHead kind id (some r) = head_of r ≡ some (kind, id)

bind-HasHead :
    {A : Type 0} (kind id : Bytes) (o : Option A) (f : A → Option InlineResult)
    → ((a : A) → HasHead kind id (f a))
    → HasHead kind id (o >>? f)
bind-HasHead kind id none f h = tt
bind-HasHead kind id (some a) f h = h a

read_article-HasHead :
    (id : Bytes) (x : JsonTree.Json) → HasHead (codes "article") id (read_article id x)
unfolding read_article
read_article-HasHead id x = bind-HasHead _ id (struct_fields x) _ λ fs.
    bind-HasHead _ id (text_value (find (codes "title") fs)) _ λ title.
      bind-HasHead _ id (text_value (find (codes "description") fs)) _ λ description.
        bind-HasHead _ id (text_value (find (codes "url") fs)) _ λ url.
          bind-HasHead _ id (content_text (find (codes "input_message_content") fs)) _
            λ message. refl

article_or_bad-head :
    (id : Bytes) (o : Option InlineResult) (r : InlineResult)
    → HasHead (codes "article") id o
    → article_or_bad o ≡ ok r
    → head_of r ≡ some (codes "article", id)
article_or_bad-head id none r read h = absurd (err≢ok _ r h)
article_or_bad-head id (some a) r read h = ap head_of (sym (ok-injective h)) ∙ read

media_of_url-head :
    (kind id title caption url : Bytes) (r : InlineResult)
    → media_of_url kind id title caption url ≡ ok r
    → head_of r ≡ some (kind, id)
media_of_url-head kind id title caption [] r h = absurd (err≢ok _ r h)
media_of_url-head kind id title caption (c ∷ url) r h = sym (ap head_of (ok-injective h))

media_or_bad-head :
    (kind id : Bytes) (m : Option (List Bytes × Bytes × Bytes)) (r : InlineResult)
    → media_or_bad kind id m ≡ ok r
    → head_of r ≡ some (kind, id)
media_or_bad-head kind id none r h = absurd (err≢ok _ r h)
media_or_bad-head kind id (some (urls, title, caption)) r h =
    media_of_url-head kind id title caption (first_non_empty urls) r h

result_of_kind-head :
    (x : JsonTree.Json) (kind id : Bytes) (r : InlineResult)
    → result_of_kind x (kind, id) ≡ ok r
    → head_of r ≡ some (kind, id)
result_of_kind-head x kind id r h = elim (Bool-cases (bytes_eq kind (codes "article"))) [
  | inl is_article ↦
      let made : article_or_bad (read_article id x) ≡ ok r = rw is_article at h in
      article_or_bad-head id (read_article id x) r (read_article-HasHead id x) made
      ∙ ap (λ k. some (k, id)) (sym (bytes_eq→eq kind (codes "article") is_article))
  | inr another ↦ elim (Bool-cases (is_media_kind kind)) [
    | inl media ↦ media_or_bad-head kind id (read_media x) r (rw (another, media) at h)
    | inr other ↦ absurd (err≢ok _ r (rw (another, other) at h))
  ]
]

typed-head :
    (x : JsonTree.Json) (o : Option (Bytes × Bytes)) (r : InlineResult)
    → (type_and_id o >>= result_of_kind x) ≡ ok r
    → head_of r ≡ o
typed-head x none r h = absurd (err≢ok _ r h)
typed-head x (some ([], id)) r h = absurd (err≢ok _ r h)
typed-head x (some (c ∷ kind, [])) r h = absurd (err≢ok _ r h)
typed-head x (some (c ∷ kind, d ∷ id)) r h = result_of_kind-head x (c ∷ kind) (d ∷ id) r h

-- Where all entries of answerInlineQuery are read, there is one result for each, in their order, of the
-- type and with the id that the entry has.
pub parse_inline_results-read_head :
    (xs : List JsonTree.Json) (rs : List InlineResult)
    → parse_inline_results xs ≡ ok rs
    → map head_of rs ≡ map read_head xs
unfolding parse_inline_results parse_inline_result
parse_inline_results-read_head [] rs h = sym (ap (map head_of) (ok-injective h))
parse_inline_results-read_head (x ∷ xs) rs h = elim (Result-cases (parse_inline_result x)) [
  | inr (e, refused) ↦ absurd (err≢ok e rs (rw refused at h))
  | inl (r, found) ↦ elim (Result-cases (parse_inline_results xs)) [
    | inr (e, refused) ↦ absurd (err≢ok e rs (rw (found, refused) at h))
    | inl (rest, others) ↦
        let made : (r ∷ rest) ≡ rs = ok-injective (rw (found, others) at h) in
        rw (
          sym made,
          typed-head x (read_head x) r found,
          parse_inline_results-read_head xs rest others,
        )
  ]
]
