-- ===== src/Ingestion/Tests.antt =====
-- Runs of the ingestion, against a server that announces UIDVALIDITY 7 and one new message.
use mailgate.Common.{
  All, Result, ok, err, Text, codes, ascii_lower, is_space, words, join, remove_char, ◌≡◌, refl,
  inl, false, none, some, [], ◌∷◌, arith,
}
use mailgate.Ingestion.{data_error, raw_item, uidvalidity_of, new_uids}
use mailgate.Ingestion.Store.{process, store_message}
use mailgate.Ingestion.Store.Effect.{Effect, store_message-Effect}
use mailgate.Ingestion.Store.Oversized.{store_message-oversized}
use mailgate.Ingestion.Sync.{starting_uid, sync_mailbox}
use mailgate.Ingestion.Sync.Complete.{sync_mailbox_complete}
use mailgate.Ingestion.Sync.Keys.{
  IsUnique, sync_mailbox-IsUnique, ApprovedOnly, sync_mailbox-ApprovedOnly,
}
use mailgate.Ingestion.Sync.Stored.{HasKey}
use mailgate.Mail.{ParsedMessage, MailError, Libraries}
use mailgate.Mail.Claims.{no_claims, trusted_ids}
use mailgate.Mail.Parse.{parse_message}
use mailgate.Mail.Policy.{searched_text}
use mailgate.Mail.Sanitise.{safe_header, is_hidden}
use mailgate.Mail.Sanitise.Visible.{IsHidden}
use mailgate.Models.{absent, quarantined, approved}
use mailgate.Samples.{ascii, sample_libraries, sample_mailbox, sample_database, sample_world}

store_message-Effect_example :
    Effect 200 13 1 3 7 5
      (process sample_libraries sample_mailbox (inl (codes "Hi")))
      sample_database
      (store_message sample_libraries 200 13 sample_mailbox 7 5
        (inl (codes "Hi"))
        3
        sample_database)
    × ((process sample_libraries sample_mailbox (inl (codes "Hi"))).state ≡ quarantined)
store_message-Effect_example =
    store_message-Effect sample_libraries 200 13 sample_mailbox 7 5 (inl (codes "Hi")) 3
      sample_database

sync_mailbox-IsUnique_example :
    IsUnique (sync_mailbox sample_world sample_mailbox 50 sample_database).1.messages
sync_mailbox-IsUnique_example =
    sync_mailbox-IsUnique sample_world sample_mailbox 50 sample_database (λ uid d h. h) (λ d h. h)
      (refl, (refl, tt))

-- Only message 11 is approved.
sync_mailbox-ApprovedOnly_example :
    ApprovedOnly
      (λ x. x.id ≡ 11)
      (sync_mailbox sample_world sample_mailbox 50 sample_database).1.messages
sync_mailbox-ApprovedOnly_example =
    sync_mailbox-ApprovedOnly sample_world sample_mailbox 50 sample_database (λ x. x.id ≡ 11)
      (λ uid d h. h) (λ d h. h) (λ e. refl, (λ e. absurd (quarantined_only e), tt))
  where
    quarantined_only : quarantined ≡ approved → ⊥
    quarantined_only e = ground arith

synced_one : (sync_mailbox sample_world sample_mailbox 50 sample_database).0 ≡ ok 1
unfolding sync_mailbox searched_text ascii_lower
synced_one = refl

announced_7 : uidvalidity_of (raw_item (codes "7") ∷ []) ≡ some 7
unfolding uidvalidity_of
announced_7 = refl

sync_mailbox_complete_example :
    All
      (λ uid.
        HasKey 1 7 uid (sync_mailbox sample_world sample_mailbox 50 sample_database).1.messages)
      (new_uids
        (starting_uid sample_world sample_mailbox 7 (some 7))
        50
        (raw_item (codes "5") ∷ []))
sync_mailbox_complete_example =
    sync_mailbox_complete sample_world sample_mailbox
      (record { before = λ validity uid x d h. h; at_last = λ validity uid d h. h }) 7 50
      (raw_item (codes "7") ∷ []) (raw_item (codes "5") ∷ []) sample_database 1 refl announced_7
      refl refl synced_one

-- A message whose sender has a name of thirty zero-width spaces.
abbrev hidden_name : Text
hidden_name =
    8203 ∷ 8203 ∷ 8203 ∷ 8203 ∷ 8203 ∷ 8203 ∷ 8203 ∷ 8203 ∷ 8203 ∷ 8203 ∷ 8203 ∷ 8203 ∷ 8203 ∷ 8203
    ∷ 8203 ∷ 8203 ∷ 8203 ∷ 8203 ∷ 8203 ∷ 8203 ∷ 8203 ∷ 8203 ∷ 8203 ∷ 8203 ∷ 8203 ∷ 8203 ∷ 8203
    ∷ 8203 ∷ 8203 ∷ 8203 ∷ []

abbrev hidden_libraries : Libraries
hidden_libraries = record sample_libraries {
  parse_bytes = λ raw. record (sample_libraries.parse_bytes raw) {
    senders = (hidden_name, codes "ann@example.org") ∷ [];
  };
}

abbrev result_or : Result MailError ParsedMessage → ParsedMessage → ParsedMessage
result_or (ok p) d = p
result_or (err e) d = d

abbrev empty_message : ParsedMessage
empty_message = record {
  sender = [];
  sender_name = [];
  recipients = [];
  subject = [];
  received_at = none;
  text = [];
  links = [];
  attachments = [];
  message_id_hash = [];
  authentication = record {
    provider_claims = no_claims;
    independent_dkim = record { result = absent; signatures = []; too_many = false };
  };
  signals = [];
}

abbrev hidden_message : ParsedMessage
hidden_message = result_or (parse_message hidden_libraries [] (codes "Hi")) empty_message

hidden_parsed :
    parse_message hidden_libraries
      (trusted_ids ascii sample_mailbox.trusted_authserv_ids)
      (codes "Hi")
    ≡ ok hidden_message
unfolding parse_message trusted_ids
hidden_parsed = refl

kept_name : safe_header hidden_name 320 ≡ hidden_name
unfolding safe_header remove_char words is_space join
kept_name = refl

IsHidden-space : IsHidden ascii 8203
unfolding is_hidden
IsHidden-space = (refl, refl)

All-IsHidden : All (IsHidden ascii) hidden_name
All-IsHidden = (
  IsHidden-space,
  (
    IsHidden-space,
    (
      IsHidden-space,
      (
        IsHidden-space,
        (
          IsHidden-space,
          (
            IsHidden-space,
            (
              IsHidden-space,
              (
                IsHidden-space,
                (
                  IsHidden-space,
                  (
                    IsHidden-space,
                    (
                      IsHidden-space,
                      (
                        IsHidden-space,
                        (
                          IsHidden-space,
                          (
                            IsHidden-space,
                            (
                              IsHidden-space,
                              (
                                IsHidden-space,
                                (
                                  IsHidden-space,
                                  (
                                    IsHidden-space,
                                    (
                                      IsHidden-space,
                                      (
                                        IsHidden-space,
                                        (
                                          IsHidden-space,
                                          (
                                            IsHidden-space,
                                            (
                                              IsHidden-space,
                                              (
                                                IsHidden-space,
                                                (
                                                  IsHidden-space,
                                                  (
                                                    IsHidden-space,
                                                    (
                                                      IsHidden-space,
                                                      (
                                                        IsHidden-space,
                                                        (IsHidden-space, (IsHidden-space, tt)),
                                                      ),
                                                    ),
                                                  ),
                                                ),
                                              ),
                                            ),
                                          ),
                                        ),
                                      ),
                                    ),
                                  ),
                                ),
                              ),
                            ),
                          ),
                        ),
                      ),
                    ),
                  ),
                ),
              ),
            ),
          ),
        ),
      ),
    ),
  ),
)

store_message-oversized_example :
    store_message hidden_libraries 200 13 sample_mailbox 7 5 (inl (codes "Hi")) 3 sample_database
    ≡ (err data_error, sample_database)
store_message-oversized_example =
    store_message-oversized hidden_libraries 200 13 sample_mailbox 7 5 (codes "Hi") 3
      sample_database hidden_message hidden_parsed (rw kept_name All-IsHidden)
      (rw kept_name (omega arith)) refl refl
