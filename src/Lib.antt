-- ===== src/Lib.antt =====
-- GDM platform: a study platform on which small groups discuss a ranking task in a Matrix room
-- while a bot observes who speaks and nudges whoever dominates.
--
-- The parts. The Session Manager (backend/session-manager) keeps the sessions and the Prolific
-- submissions of the participants. The Chat Service (backend/chat-service) runs the bot: it records
-- the discussion of each running session, evaluates it at the end of every contribution window,
-- and sends snapshots of its runtime to the Session Manager, which merges them into the stored
-- session. The types that both share are in packages/shared.
--
-- The files.
--   Common: Boolean tests, arrays, texts (lists of UTF-16 code units), `Map`s (association lists in
--     insertion order), stable sorting.
--   Shared: packages/shared/src. Models (models.ts), Interventions and Config (interventions.ts,
--     with `normalizeConfig` of rules/bot-rules.ts), Dto (dto.ts), Words (text.ts), Tasks (tasks.ts),
--     Identity (identity.ts); Timestamp and Number stand for the `Date` and `number` of the language,
--     and FixedPoint is a `Number` for trials.
--   Checkpoint: backend/session-manager/src/store/checkpoint-merge.ts and window-evaluations.ts.
--     Merge has `mergeCheckpointIntoSession`, Keyed `appendUnique`, `mergeByKey` and
--     `mergeCheckpointValues`, Reactions `mergeMessages` and `mergeRecordedReactions`, Rankings
--     `rankingKey` and `newestRanking`, Windows `dedupeWindowEvaluations`.
--   Participation: backend/session-manager/src/store/participation.ts (Endings, Rules) and
--     participation.store.ts (State, Store, Actions), sessions/compensation.ts (Compensation) and
--     sessions/participation-outcomes.ts (Outcomes). The store's operations take the state and
--     return it with their result; Run lets any sequence of them follow one another.
--   Prolific: backend/session-manager/src/prolific/prolific-actions.service.ts. Api has the requests
--     and answers, Actions the three requests with their marks, Service the operations and the
--     sequences of them. The operations run one after the other on the participation store.
--   Chat: backend/chat-service/src/sessions/session-runtime.ts (Runtime, Runtime.Restore, and the
--     members of the room in Window) and rules/bot-rules.ts (Classify: `onEvent`; Window, Split,
--     Message, Evaluate, Elapse: `onWindowElapsed` and what it calls).
--   Store: backend/session-manager/src/store/store.service.ts, without a database. State (the fields of
--     the service), Conditions (conditions.ts), Shuffle and Forming (forming-session.ts,
--     waiting-timeout.ts), Rounds (`currentRound`, `startNewRound`, `listRounds`), Lookup (the queries,
--     `findForming`), Seats (`addParticipant`, surveys, credentials), Lifecycle (claim, publication,
--     `abortLobbies`, checkpoints), Settings. Life is the abstract diagram of a session's life, and
--     Life.Writes has the conditional writes one by one, in any order. A session that the code
--     changes in place is replaced in the map of the sessions.
--   Sessions: backend/session-manager/src/sessions/sessions.service.ts. Sweep
--     (`sweepExpiredWaitingRooms`, `startRound`), Assignment (`assignCondition`, `studyInfo`),
--     Matchmaking (`reserveSeat`), Leaving (`terminateParticipation`, `leaveSession`), Disconnection
--     (`sweepDisconnectedParticipants`), Completion (completion, checkpoints, recovery), Provisioning
--     (room-provisioning.ts, with the answers of the homeserver and of the Chat Service as a
--     parameter). The operations work on the pair of the store of sessions and the store of
--     participations, give a state even where they throw, and Run lets any sequence of them follow
--     one another.
--
-- The conventions. A time is a number of milliseconds since 1970; a `Timestamp` is a text with the
-- milliseconds that `Date.parse` reads from it, or none. Floating-point numbers are a parameter, the
-- record `Shared.Number.Number`, of which only the order is assumed to be total and transitive; NaN
-- and the infinities are left out. A request that the homeserver or the message generator refuses is
-- `none`. The loops are structural; the only fuel is that of `decimal`, the digits of a number: it is
-- the number plus one, and no number has more digits than that.
--
-- What is not modelled: the database branches of the stores (Prisma), which are queries; the HTTP
-- controllers, the Matrix client, the calls of the Prolific API and the classifier, which are input
-- and output; the reports, the exports and the frontends; of the session service the resume of a
-- Prolific submission, the validation of identities and of survey answers, and operations that
-- overlap, beyond the order of the single writes in Store.Life.Writes (the code queues those
-- that change a lobby and those that write one session); the session
-- service of the Chat Service with its timers.
pub mod Chat
pub mod Checkpoint
pub mod Common
pub mod Participation
pub mod Prolific
pub mod Sessions
pub mod Shared
pub mod Store
