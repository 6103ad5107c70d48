-- ===== src/Server/Send/Albums.antt =====
-- The size of the albums that sendMediaGroup (internal/server/methods_send.go) asks for.
use tgbotd.Prelude.{
  suc, ◌≤◌, ◌≡◌, sym, ap, ◌∙◌, List, [], ◌∷◌, length, ◌||◌, ltb, arith, Bool-cases, inl, inr,
  Option, subst,
}
use tgbotd.Prelude.Bytes.{Bytes, codes}
use tgbotd.Prelude.Int.{ℤ}
use tgbotd.Json as JsonTree
use tgbotd.Botapi.{Result, ok, Result-cases, err≢ok, ok-injective}
use tgbotd.Server.Params.{Params, param_raw}
use tgbotd.Server.Chats.{resolve_chat_id}
use tgbotd.Server.InputFile.{InputFile}
use tgbotd.Server.Send.{common_media_opts}
use tgbotd.Server.Send.Media.{SendCall, send_album_call}
use tgbotd.Server.Send.Groups.{
  group_item, group_items, two_to_ten, entries_of_raw, send_media_group,
}

two_to_ten_lem :
    (es kept : List Bytes) → two_to_ten es ≡ ok kept → (2 ≤ length kept) × (length kept ≤ 10)
two_to_ten_lem es kept h = elim (Bool-cases (ltb (length es) 2 || ltb 10 (length es))) [
  | inl wrong ↦ absurd (err≢ok _ _ (rw wrong at h))
  | inr right ↦
      let same : es ≡ kept = ok-injective (rw right at h) in
      subst (λ l. (2 ≤ length l) × (length l ≤ 10)) same (ground arith, ground arith)
]

module _ {F : Type 0} (lower : Bytes → Bytes) (save : F → Result Bytes)
    (files : List (Bytes × F)) where
  group_items-length :
      (es : List Bytes) (items : List InputFile)
      → group_items lower save files es ≡ ok items
      → length items ≡ length es
  unfolding group_items
  group_items-length [] items h = sym (ap length (ok-injective h))
  group_items-length (e ∷ es) items h = elim (Result-cases (group_item lower save files e)) [
    | inr (x, refused) ↦ absurd (err≢ok _ _ (rw refused at h))
    | inl (f, found) ↦ elim (Result-cases (group_items lower save files es)) [
      | inr (x, refused) ↦ absurd (err≢ok _ _ (rw (found, refused) at h))
      | inl (fs, rest) ↦
          sym (ap length (ok-injective (rw (found, rest) at h)))
          ∙ ap suc (group_items-length es fs rest)
    ]
  ]

-- The items of an album call, and none of another call.
abbrev pub album_items : SendCall → List InputFile
album_items (send_album_call peer items opts) = items
album_items _ = []

-- An album is asked for only with 2 to 10 files.
pub send_media_group-length :
    {F : Type 0} (whole : Bytes → Option ℤ) (number_text : Bytes → Bytes)
    (tree : Bytes → JsonTree.Json) (lower : Bytes → Bytes) (save : F → Result Bytes)
    (files : List (Bytes × F)) (ps : Params) (c : SendCall)
    → send_media_group whole number_text tree lower save files ps ≡ ok c
    → (2 ≤ length (album_items c)) × (length (album_items c) ≤ 10)
unfolding send_media_group
send_media_group-length whole number_text tree lower save files ps c h =
    elim (Result-cases (resolve_chat_id ps (codes "chat_id"))) [
      | inr (x, refused) ↦ absurd (err≢ok _ _ (rw refused at h))
      | inl (peer, found) ↦
          elim (Result-cases
            (entries_of_raw whole number_text tree (param_raw ps (codes "media")))) [
              | inr (x, refused) ↦ absurd (err≢ok _ _ (rw (found, refused) at h))
              | inl (es, given) ↦ elim (Result-cases (two_to_ten es)) [
                | inr (x, refused) ↦ absurd (err≢ok _ _ (rw (found, given, refused) at h))
                | inl (kept, counted) ↦ elim (Result-cases (group_items lower save files kept)) [
                  | inr (x, refused) ↦
                      absurd (err≢ok _ _ (rw (found, given, counted, refused) at h))
                  | inl (items, made) ↦
                      let opts = common_media_opts whole number_text tree ps in
                      let called : send_album_call peer items opts ≡ c =
                        ok-injective (rw (found, given, counted, made) at h) in
                      let size : length (album_items c) ≡ length kept =
                        sym (ap (λ d. length (album_items d)) called)
                        ∙ group_items-length lower save files kept items made in
                      let bounds = two_to_ten_lem es kept counted in
                      (omega (arith, size, bounds.0), omega (arith, size, bounds.1))
                ]
              ]
            ]
    ]
