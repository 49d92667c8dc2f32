-- ===== src/Lib.antt =====
-- The services of the UCom backend: what users do to one another and to content, comments,
-- accounts in tokens and the airdrops that fill them, the traces of the blockchain, the affiliates,
-- statistics, and the helpers that the workers share.
--
-- The backend is a set of static services over tables of PostgreSQL, reached through repositories.
-- A request checks its preconditions, writes its tables in one transaction of the database, and
-- publishes a message for the workers. Here a table is a list of rows, a service a function of the
-- state, and an error that is thrown a value (Prelude/Action): a throw leaves what was written
-- before it, and `transaction` puts the state back. Updates that the source starts together with
-- `Promise.all` are made one after the other. Columns of time, previews and logs are left out.
--
-- Prelude: shared names; Tests has the Boolean tests on numbers, Lists the functions on lists,
--   Action the calls with their errors (lib/api/errors.js), Int the integers of the BIGINT columns.
-- Dictionary: the ids and names of the package ucom.libs.common, which is a parameter with its
--   documented laws.
-- Social: the history of activities (users_activity) and the index tables.
--   Index, State: the tables (lib/users/repository) and the queue (lib/jobs/activity-producer.js);
--   Follow: lib/users/user-activity-service.js from userFollowsAnotherUser to createFollowIndex;
--   Organizations: lib/users/activity/user-to-organization-activity.js;
--   Trust: lib/users/service/users-trust-service.js; Votes: lib/posts/post-activity-service.js and
--   lib/comments/comments-activity-service.js; Activities: the other builders of activities in
--   user-activity-service.js, which write the same history; Nodes: blockchain-cache-service.js in
--   lib/blockchain-nodes/service, which brings the votes for nodes in line with the blockchain.
--   Follows, trust and votes are kept twice: as a row of an index under a unique constraint, and
--   as the last activity, or the counter of the content. The modules Laws say how the two agree,
--   and Requests what a whole request does; Follow/Steps has requests that interleave.
-- Accounts: lib/accounts; Sums, Transfers and Booking have the balances, the transfer in closed
--   form and the invariant of the ledger. A transaction's parent is one that is there, and its
--   external_tr_id is new; that this id is one of outgoing_transactions_log is left out.
-- Airdrops: lib/airdrops; State has its tables, Pending airdrops-users-to-pending-service.js,
--   Delivery/Waiting and Delivery/Received the two workers after it. The blockchain, the names of
--   users and the follows of the community are parameters.
-- Comments: lib/comments; Creation has comments-creator-service.js. The row is inserted outside the
--   transaction that writes its path, the counter of the post and the activity of Social, and
--   stays without a path when that fails. A path has at most 255 characters of JSON, whose number
--   is a parameter. The checks of images and of the description are left out. Order has the list
--   of comments of comments-post-processor.js.
-- Traces: lib/blockchain-traces. A processor (Processor) finds the actions of a trace by their
--   names and makes a row of them; Processors has the ten that are bound, Chain tries them in
--   order, and Sync stores the rows in batches. The collection of the blockchain's database is a
--   parameter, in the order of `sort({ blocknum: 1 })`, and does not change during a run; so is
--   whether the package joi accepts data under a schema. Amounts are integers, in
--   ten-thousandths of a token. The loop of batches has fuel for two rounds more than the
--   collection has traces: the block number rises with every round but the last two. Of the
--   constraints of the table only the unique index is modelled.
-- Affiliates: lib/affiliates. Clicks has the links of users and who is credited for a visitor,
--   Referral the registration of a new user, Conversions the worker after it, and Streams
--   the links that are made for users. The visitor's unique id, read from a cookie, is a
--   parameter, and the queues of messages are not told apart.
-- Statistics: lib/stats/service. Importance has the events of entity-job-executor-service.js, made
--   in batches by the ids of a table that is a parameter, with fuel for a round more than it has
--   rows, since every round but the last reads one at least; Delta has the calculations of
--   entity-calculation-service.js, for statistics of integers.
-- Batch: lib/common/helper/batch-processing-helper.js. The loop has fuel for one round more than
--   overflowLimit: its limiter throws at the end of that round.
-- ManyToMany: lib/api/helpers/UpdateManyToManyHelper.js and lib/users/users-team-service.js, where
--   the users that exist are a parameter: a row for another one is refused.
-- Filters: the pages of lib/api/filters/query-filter-service.js, for queries with whole numbers and
--   fractions, whose denominator is a parameter.
-- Tests: runs on small tables.
--
-- Not modelled: forms, uploads, previews and the routes and GraphQL above the services, which pass
-- data through libraries; the other statistics, which are formulas on floating-point numbers and queries; tags and
-- mentions, which rest on regular expressions; the organizations' forms; the updating of comments;
-- the lists of a user's traces. An event id that is null is 0. Ids of new rows follow the number of
-- rows, or the sequence of a table from which rows are deleted.
pub mod Prelude
pub mod Dictionary
pub mod Social
pub mod Accounts
pub mod Airdrops
pub mod Batch
pub mod ManyToMany
pub mod Filters
pub mod Traces
pub mod Affiliates
pub mod Comments
pub mod Statistics
pub mod Tests
