-- ===== src/Lib.antt =====
-- A model of DocflowWeb, a document management system written in Go: an API gateway in front of
-- gRPC services for users, sign-in, documents, tasks, calendars, notifications and mail, each with
-- its own PostgreSQL database. The models are of the task, document, auth, user and mail services,
-- the changes of events in the calendar service, and the gateway's middleware.
--
-- How the parts interact: the gateway's middleware decides whether a request is let through and by
-- whom it is sent; a handler then calls one method of a service. A service method checks its input,
-- sends SQL statements to its own database, and tells the notification and the calendar service;
-- what these answer is ignored by the source, so the models keep what they are sent in an outbox.
--
-- How state and errors are modelled: a method is a function from a world to a result and a world
-- (Base.Exec). The world holds the tables, the number of statements sent so far, and the outbox. An
-- error is a sentinel of the domain or an error of a library, wrapped by fmt.Errorf; what was
-- written before an error stays written, for the services open no transaction. Each statement may
-- fail, as an arbitrary schedule says (Base.Postgres): theorems hold for every schedule unless they
-- say that a statement does not fail. The schedule, the clock and the fresh ids of the database are
-- parameters, as are the order of ORDER BY (another one for each statement where the columns do not
-- decide), the order in which Go ranges over a map, the forms in which PostgreSQL reads a uuid, and
-- the verb %q. Ids are compared as texts, so a request names a row by its id in the form in
-- which PostgreSQL writes it; only the user and the mail service read other forms of a uuid.
-- Statements of one service run one after the other; concurrent requests are not modelled.
--
-- Base: what all parts share.
--   Base.Tests, Base.Text     Boolean tests, lists, strings.TrimSpace
--   Base.Exec                 functions with state and errors, and how they run
--   Base.Table, Base.Rows     a table as a list of rows: SELECT, UPDATE, DELETE, primary keys
--   Base.Postgres             the database server as a parameter; one statement
--   Base.Status               the gRPC codes
--   Base.Keeps                programs that keep a property of the tables
--   Base.Redis                keys with a time of expiry
--   Base.Unicode              to lower case, classes of characters, over the tables of Unicode
--   Base.Moves                programs that move the state along a reflexive, transitive relation
--   Base.Refusals             programs that change no table when they fail with a sentinel
--   Base.Statements           the two, for one statement
--   Base.Paging               Normalize, Offset, and LIMIT with OFFSET
--
-- Task: services/task-service.
--   Task.Domain               internal/domain/task.go
--   Task.Repository           internal/repository/task_repository.go and history_repository.go
--   Task.Service              internal/service/task_service.go
--   Task.Errors               pkg/errors/grpc.go
--   Task.Lifecycle            the abstract life of a task: the diagram and the steps of the table
--   Task.Effects, Task.Validation, Task.Operations, Task.Refinement
--                             every method moves the table along these steps
--   Task.Invariants, Task.Frozen, Task.Kept
--                             what follows for the service
--   Task.Refusals, Task.Outcomes, Task.Audit, Task.Progress, Task.Overdue, Task.Listing
--                             the branches of the methods: refusals, answers, failures, lists
--
-- Document: services/document-service, in the same order.
--   Document.Domain           internal/domain/document.go
--   Document.Repository       internal/repository/document_repository.go and history_repository.go
--   Document.Service          internal/service/document_service.go (CreateDocument is
--                             create_document, and so on)
--   Document.Errors           pkg/errors/grpc.go
--   Document.Writes, Document.Silence
--                             the programs inside a method: what they do to the table, how they fail
--   Document.Export           its ExportDocumentsCSV; Document.Csv is the writer of encoding/csv,
--                             Document.CsvReader a reader of its output, written without it
--   Document.Exported         the cells and the rows that the export is about, written without it
--
-- Gateway: services/api-gateway/internal/middleware.
--   Gateway.RateLimit         ratelimit.go
--   Gateway.Access            jwt.go, for the two middlewares one behind the other
--   Gateway.Idempotency, Gateway.Replay
--                             idempotency.go, and what it promises. Each command of Redis may
--                             fail, and its entries expire
--
-- Auth: services/auth-service. PostgreSQL and Redis are one store, and their calls are numbered
-- together; bcrypt, sha256, JWT and JSON are functions of the environment.
--   Auth.Domain               internal/domain/auth.go
--   Auth.Repository           internal/repository/auth_repository.go
--   Auth.Service              internal/service/auth_service.go
--   Auth.Errors               mapError of internal/transport/grpc/server.go
--   Auth.Tokens, Auth.Spent, Auth.Redeem
--                             what becomes of a refresh token, under every method
--   Auth.Passwords, Auth.SignIn, Auth.Login
--                             changed passwords, sign-in after registration, who is signed in
--
-- User: services/user-service, with its calls numbered as in Auth.
--   User.Domain               internal/domain/user.go
--   User.Repository           internal/repository/user_repository.go
--   User.Service              internal/service/user_service.go and mapError of the gRPC server
--   User.Members, User.Requests
--                             the requests, and that none of them makes a user
--   User.Coherence, User.Sound, User.Changes, User.Transparent, User.Stale
--                             the cache against the table
--
-- Mail: services/mail-service. PostgreSQL, Redis and the mail server are one world, and their calls
-- are numbered together; html/template and the forms of times and uuids are functions of the
-- environment. The outbox holds each mail, the error that Send returned, and what the mail
-- server answered to the text.
--   Mail.Domain               internal/domain/mail.go and internal/service/templates.go
--   Mail.Repository           internal/repository/mail_repository.go and internal/cache/keys.go
--   Mail.Templates, Mail.Service
--                             internal/service/auth_service.go (the service is in the file of this
--                             name), internal/worker/consumer.go
--   Mail.Smtp                 Send of internal/sender/smtp.go
--   Mail.Requests, Mail.Effects, Mail.Serving
--                             the requests, and what any of them may do to the tables
--   Mail.Kept, Mail.Once, Mail.Sent, Mail.Bulk
--                             stored jobs, messages delivered again, what "sent" means, many mails
--   Mail.Delivery, Mail.Success
--                             the handler of the queue where nothing fails
--
-- Calendar: services/calendar-service.
--   Calendar.Domain           internal/domain/event.go
--   Calendar.Repository       the statements on one event of internal/repository/event_repository.go
--   Calendar.Service          CreateEvent, UpdateEvent, DeleteEvent, GetEventStats and invalidateMonth
--                             of internal/service/calendar_service.go; the cache is a parameter
--   Calendar.Owners           whose events a request may touch
--   Calendar.Order            events that end before they start
--
-- Bounds: Go's int is an integer here; page numbers come as int32, so the offset does not wrap.
-- Instants are natural numbers. No function needs fuel: each loop runs over a list.
--
-- Not modelled: conversion to and from protobuf and JSON, wiring, configuration, logs and metrics
-- (input and output only); the calendar's queries; the notification service.
pub mod Base
pub mod Auth
pub mod Calendar
pub mod Document
pub mod Gateway
pub mod Mail
pub mod Task
pub mod User
