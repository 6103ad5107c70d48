-- ===== src/Lib.antt =====
-- tgbotd, a server of the Telegram Bot API over MTProto: the parts that keep a bot's updates, deliver
-- them and translate between the two worlds of ids and errors.
--
-- A bot (internal/botmgr/botmgr.go) is an MTProto client with a queue of updates. The library's
-- receiver pushes every update; the long poll getUpdates (internal/server/methods_updates.go) and the
-- webhook's loop (internal/botmgr/webhook.go) wait for them, translate them, and acknowledge what they are done
-- with, one of them at a time under the take lock.
--
--   Prelude          Shared names, lists, tests; Prelude/Int, Decimal, Base64, Binary, Bytes, Utf8, Slices and
--                    Maps model what the source uses of Go's int64, strconv, base64, binary, strings, utf8 and maps.
--   Botapi           internal/botapi/envelope.go: Response, APIError and their constructors.
--   Botmgr/Updates   internal/botmgr/updates.go: the queue. Push, Peek, Ack, Clear, Len, hasReady and
--                    snapshotLocked are functions of the buffer, each atomic under its mutex. Wait
--                    (Updates/Wait) takes what others do while it sleeps, the broadcasts of the timer and of
--                    the context's goroutine included, as a list of events. Updates/Refinement relates a buffer to the log of all updates pushed.
--   Botmgr/RpcError  mapRPCError and httpStatusText of internal/botmgr/botmgr.go.
--   Botmgr/Cache     The caches with generations of internal/botmgr/botmgr.go; Cache/Coherence runs the getters
--                    and setters of internal/server/methods_bot_config.go as interleaved steps.
--   Botmgr/Webhook   deliverer.run of internal/botmgr/webhook.go, a round at a time.
--   Fileid           internal/fileid/fileid.go: file ids and their run-length code.
--   Server/Integers  jsonParseInt, atoi64 and toInt32Safe of internal/server/handlers.go.
--   Server/InlineId  internal/server/inline_msg_id.go, and inlineMsgID of internal/tlate/updates.go.
--   Server/GetUpdates  getUpdates of internal/server/methods_updates.go.
--   Server/BotConfig internal/server/methods_bot_config.go: commands, name and descriptions, with the caches.
--   Storage          internal/storage/storage.go: the tables as lists of rows, and each SQL statement as a
--                    function of them.
--   Botmgr/Manager   validateToken and Manager.Get of internal/botmgr/botmgr.go, with Get as steps that interleave.
--   Botmgr/Dispatch  dispatchIntercepted of internal/botmgr/botmgr.go.
--   Server/Files     getFile and handleFileDownload of internal/server/methods_file.go, up to the transfer.
--   Server/FilePath  The signed paths of internal/server/methods_file.go.
--   Server/Params    parseParams of internal/server/server.go and the readers of internal/server/handlers.go.
--   Server/Routing   handle of internal/server/server.go, and the counters of internal/server/metrics.go.
--   Server/WebhookMethods  setWebhook, deleteWebhook and getWebhookInfo of internal/server/methods_updates.go.
--   Botmgr/Deliverers  StartWebhook and the registry of deliverers in internal/botmgr/webhook.go: a call has three moves, which
--                    interleave with those of other calls. Laws is about calls one after the other, Lost about two at once.
--
--   Json             JSON values as trees; Json/Reading is what encoding/json makes of them for a struct.
--   Botapi/Types, Botapi/Media  internal/botapi/types.go: the records, and the JSON of users and chats.
--   Tlate            internal/tlate: Telegram and Telegram/Incoming are the library's objects as far as they are read,
--                    Context is TranslateContext, whose maps keep what the lookups answer, and a translation
--                    is an action on it; Chats, Entities, Markup, Messages (tlate.go), Media (media.go),
--                    Members, Reactions (updates_helpers.go) and Updates (updates.go) have a function for each of the source.
--   Botmgr/Translation  BuildTranslateContext and deliverOne of internal/botmgr/webhook.go.
--   Server/Chats     resolveChatID and internal/server/methods_chat.go: rights and members in Chats/Members.
--   Server/InputFile resolveInputFile and inputMediaFromFileID of internal/server/input_file.go.
--   Server/Send      sendMessage of internal/server/methods_core.go and, in Send/Media and Send/Methods, the methods of
--                    internal/server/methods_send.go that send a file, a place, a contact or a dice; Send/Groups has polls and albums.
--   Server/Markup    parseReplyMarkup and its buttons in internal/server/methods_core.go.
--   Server/Edit      internal/server/methods_edit.go and editInlineMessage of inline_edit.go.
--   Server/Answers   internal/server/methods_answer.go: answers to callback and inline queries.
--   Server/Extensions  internal/server/methods_ext.go.
-- Texts are lists of bytes. What json.Marshal does to bytes that are no UTF-8 is modelled for reply markups, whose
-- callback data is made of any bytes; other texts are taken as they are. An int64 is an integer with its range as a hypothesis where it matters, and
-- wraps around where the code lets it. Update ids are natural numbers, since they count up from 1 by
-- one for each push and 2^63 pushes are out of reach; an offset that is not positive is no
-- offset. A cache's generation wraps modulo 2^64, and the steps of Cache/Coherence assume that it does not.
--
-- Loops are structural recursion, but for rleEncode and the printing of numbers, which take fuel: the
-- length of the text, of which each step takes at least one byte, and the number plus one, which each step
-- divides by ten.
--
-- What is not of this repository is a parameter: in the queue and its readers an update (`U`) and its
-- translation, the answer of a webhook's endpoint and the stop signal as functions of the item within one
-- round, and the seconds of telegram.GetFloodWait; in the methods, the answers of the MTProto library's client,
-- as functions of what it is asked. The library's objects are data types with the cases and fields that the
-- source reads. A setter that Telegram refuses leaves what Telegram holds as it was.
--
-- Not modelled: the HTTP client and server, the bytes of JSON texts, temporary files, logging and the trace file; the
-- handlers of methods_misc.go, methods_edit2.go, methods_stickers.go and methods_payments.go,
-- most of which only pass parameters on to the MTProto library; the building and shutting down of a bot, and the stats page.
mod Prelude
pub mod Json
pub mod Botapi
pub mod Fileid
pub mod Botmgr
pub mod Server
pub mod Storage
pub mod Tlate
