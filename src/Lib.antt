-- ===== src/Lib.antt =====
-- A model of the accounts, name tags, watch lists, soulbound tokens, notifications, exports, balances
-- and contracts of the Aura explorer's API.
--
-- The API is a NestJS application: services read and write tables through TypeORM repositories and
-- throw exceptions that end a request. A service method is a function of `Exec S A`
-- (Exec.antt): from the store `S` to a result or an exception, and the store that is left, so that
-- what was written before a throw stays written. Parts:
--   Repository.antt     Repository<Entity> of TypeORM, an interface with laws; Repository/Memory.antt
--                       is an instance that meets them, Repository/Rows.antt lemmas on rows,
--                       Repository/Builder.antt the query builder of the paged listings.
--   Entities.antt       shared/entities and the enumerations of shared/constants/common.ts.
--   Account.antt        the tables and services that users and authentication share.
--   User.antt           components/user/user.service.ts: find_one_by_id, create, update_user,
--                       delete_user, check_role, active_user (findOneById, create, update, delete,
--                       checkRole, activeUser); User/Mail.antt the mails and their limit,
--                       User/Password.antt the passwords, User/Device.antt the notification tokens.
--   Auth.antt           auth/jwt, auth/password, auth/role; Auth/Google.antt auth/google.
--   NameTag.antt        components/private-name-tag (NameTag/Private.antt) and
--                       components/public-name-tag (NameTag/Public.antt), with the regular
--                       expressions (NameTag/Format.antt) and shared/utils/verify-address.util.ts
--                       (NameTag/Address.antt); their listings are NameTag/Private/Listing.antt and
--                       NameTag/Public/Listing.antt. components/encryption, which encrypts the texts of
--                       private tags, is NameTag/Encryption.antt; the tags use it by TagServices.
--   Http.antt           the requests of shared/utils/service.util.ts.
--   WatchList.antt      components/watch-list/watch-list.service.ts, and the settings of a watched
--                       address in WatchList/Settings.antt, the search by keyword in
--                       WatchList/Search.antt. It reads the name tags.
--   Soulbound.antt      components/soulbound-token: claims, rejections and picks of a receiver
--                       (Soulbound/Service.antt), creation (Soulbound/Create.antt), the listings of
--                       tokens (Soulbound/Listing.antt) and of contracts (Soulbound/Contracts.antt); and
--                       components/queues/cw4973 (Soulbound/Sync.antt), which sets the statuses of
--                       tokens by the messages on the chain.
--   Notification.antt   components/queues/notification and components/notification. The daily limit
--                       (blockLimitNotification), which writes to the watch lists, is in
--                       Notification.antt itself; Notification/Groups.antt, Texts.antt (with
--                       Texts/Coins.antt and Texts/Tokens.antt) and Message.antt are
--                       utils/notification.util.ts and getTypeTxMsg of
--                       shared/helpers/transaction.helper.ts; Desk.antt has the tables of the jobs,
--                       Processor.antt their common steps (they decrypt the private
--                       tags of all users) and Processor/Jobs.antt the jobs of
--                       notification.processor.ts; Service.antt is notification.service.ts.
--   Token.antt          components/queues/token and components/asset/repositories: the paged queries
--                       (Token/Paging.antt), the synchronisation of assets (Token/Assets.antt), the
--                       numbers of holders (Token/Holders.antt) and prices (Token/Prices.antt).
--   Export.antt         components/export-csv: the paged query (Export/Query.antt), the conversion
--                       of transactions by shared/helpers/transaction.helper.ts
--                       (Export/Convert.antt), the rows and columns (Export/Rows.antt) and the six
--                       exports (Export/Service.antt). It reads the assets and the name tags.
--   Campaign.antt       micro3-campaign/micro3-campaign.service.ts: the verification of quests.
--   Balance.antt        components/account/services/account.service.ts: the balance of one account
--                       (Balance/Single.antt) and of a list (Balance/Listed.antt, with queryComosRPC
--                       of shared/utils/rpc.util.ts), from shared parts (Balance/Parts.antt).
--   Contract.antt       components/contract/services/contract.service.ts: the requests for a
--                       verification (Contract/Verify.antt), its steps (Contract/Steps.antt) and the
--                       detail of a soulbound token (Contract/Detail.antt), which writes to the table
--                       of Soulbound.antt.
--   Tests.antt          a small installation on which the theorems are applied.
-- Source files are named from the repository's folder src.
--
-- How the code is read. A method keeps its name, in this language's spelling. A column that may be
-- null is an Option, a Date its time in milliseconds, a relation the key of the other row;
-- the database rounds a date to whole seconds, which the model does for `last_required_login`, the
-- one that is compared with the second of a token (the others are compared over minutes and days);
-- created_at and updated_at, which the database fills, are left out. A `where` condition is a
-- Boolean function of a row, and no query promises an order. One reading of the clock serves a
-- request (`Moment`); its midnight and its random values are given too. An update skips the columns
-- that are undefined. A failed transaction leaves the tables as they were; its COMMIT
-- can fail in a registration, where it comes after the mail is queued. Parameters with their
-- documented laws: TypeORM, bcrypt, the mail queue, @nestjs/jwt, google-auth-library, the cipher of
-- node and the KMS, bech32, web3-validator, @cosmjs, the indexer, Coingecko, the IPFS gateway,
-- Firebase, JSON texts, the texts of floats, and the node's RPC. A job of a queue is a function
-- that logs what it throws; what it does not await and what fails there does not stop it. A
-- relation that a query joins is the rows that a query by its key finds. A float, and a decimal
-- column, is its text. The loops over the pages of the indexer in the token queue, and over those
-- of the LCD for a balance, end by what is answered: they take a number of rounds, and a theorem
-- says that more rounds than there are items, or as many as there are pages, are enough. The loop
-- of the exports counts to ten itself. Every other function is structurally recursive.
--
-- Not modelled: controllers and data transfer objects beyond the fields that services read, the
-- paged listings of notifications and of assets (SQL text), logging, mail templates, the set-up of
-- queues, and the components that mostly fetch over HTTP.
pub mod Account
pub mod Auth
pub mod Balance
pub mod Campaign
pub mod Contract
pub mod Entities
pub mod Exec
pub mod Export
pub mod Http
pub mod NameTag
pub mod Notification
pub mod Prelude
pub mod Repository
pub mod Soulbound
pub mod Tests
pub mod Token
pub mod User
pub mod WatchList
