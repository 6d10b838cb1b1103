-- ===== src/Lib.antt =====
-- A model of the tractor-visit recogniser and of what keeps it right.
--
-- Cameras at farm stations film tractors that carry ArUco markers. The ingestion process copies the
-- videos of a station's directory to cold storage and offers them to the API; an edge process reads a
-- camera stream and publishes batches of detections over MQTT, which a consumer forwards to the API.
-- The API registers a video, recognises it in a worker, stores the events, and aggregates them into
-- visits of a tractor to a station; a scheduler retries failed videos.
--
-- The files, and the code each models (paths from the repository's root):
--   Common, Clock, Event    lists, Boolean tests, signed durations, dicts, exceptions; datetimes and
--                           the `_to_naive_utc` of the services; src/models/event.py, src/schemas/event.py
--   Visit                   src/models/visit.py, src/config/visit.py. Visit/Machine is the state
--                           machine of src/services/visit_service.py (`_apply_state_transition`,
--                           `_maybe_close_visit`), Visit/Store the session over the visits and
--                           src/repositories/visit.py, Visit/Process `process_video_for_visits` and
--                           `_create_or_get_open_visit`, Visit/Lifecycle `check_stale_visits`,
--                           `recover_open_visits` and the reads, Visit/Board the stations' board and
--                           the history; the other files of Visit prove
--   Video                   src/models/video_file.py. Video/Session is the session over the videos
--                           with src/repositories/base.py and video_file.py, Video/Service
--                           src/services/video_service.py, Video/Handler src/services/video_handler.py,
--                           Video/Scheduler and Video/Switch src/services/scheduler.py; the other files
--                           prove
--   Mqtt                    src/services/mqtt_client.py (Topic, Session, Backoff); mqtt_consumer/main.py
--                           in Mqtt/Messages (a message) and Mqtt/Consumer (the retries)
--   Detect                  src/services/detector.py and src/services/video_processor.py
--   Edge                    edge/main.py; Edge/Pacing its rate and its command line
--   Ingest                  ingestion/cursor.py and ingestion/main.py: Ingest/Produce a producer,
--                           Ingest/Watch the watcher with its tasks; Ingest/Journey joins the producer
--                           to the API's endpoint
--   Farm                    stations and tractors: src/models/station.py, src/models/tractor.py, Farm/Table
--                           src/repositories/base.py, Farm/Stations and Farm/Tractors the services
--                           src/services/station_service.py and tractor_service.py with their
--                           repositories, Farm/Seed scripts/seed_reference.py; the other files prove
--   Event/Store, Event/Ingest  src/services/event_service.py and src/repositories/event.py; the endpoint
--                           src/router/v1/events.py with src/schemas/edge_ingest.py and the session of
--                           src/dependencies.py; Event/Feed and Gathered prove
--   Files                   the files of a machine; Files/Hash is src/utils.py
--   Router                  src/router/v1 and src/router/factory.py: Router/Upload and Router/Videos the
--                           video endpoints, Router/Farm those of stations and tractors, Router/Crud the
--                           factory, Router/Status the status; the others prove
--   App                     src/main.py: start, periodic check and end of the process, each by itself
--   Recognize               `recognize_video` and `_aggregate_visits` of src/services/video_handler.py
--                           over videos, tractors, events and visits at once
--   Executor                src/services/video_executor.py, its coroutines as steps in any order
--   Sse                     src/sse/broker.py, as a step relation
--   Tests                   concrete runs
--
-- State is passed explicitly. A visit is a row of a World, whose `committed` is what a rollback
-- leaves; objects of the ORM's identity map are row keys, so a visit changed through one dict is seen
-- through the other. A session over videos is a state, and a service function a run that returns or
-- raises in it. A float of the source is a natural number of a small unit (microseconds, millionths,
-- half pixels), named where it is declared; a difference of times is an integer. Loops are recursion
-- on the list that they go over: the rounds of a connection, the steps of the edge process and the
-- passes of a producer are lists, so no fuel is needed and every function is total.
--
-- Parameters stand for what is outside: the database's keys and clock, the file system and hash
-- algorithm, the contours and markers that OpenCV finds in a frame and its point-in-polygon test, the
-- replies of an HTTP server, the rounds of a broker, `strptime`, the foreign keys that visits put on
-- stations and tractors, the addition of floats where a timer sums them, and the order in which the
-- database gives rows of equal rank. The worker process is a parameter, and in Video/Handler, where
-- statuses and retries are the matter, so is the storing of a video's events; Recognize models that.
--
-- Not modelled: the reading of settings from the environment, logging, the DDL of the migrations
-- (their constraints are in the models of the tables), signal handlers, the plain copies of fields
-- into response bodies, and the scripts that smoke-test, measure or simulate the running program.
-- The retries of one tick run one after the other, and two workers on one database are met only
-- where an insert loses against a row of another (`adopt`): a sweep and an aggregation that change one
-- visit at the same time are not. Nor is the ORM's expiry of attributes: after a flush that updated a
-- visit its computed `duration_seconds`, and after a rollback every attribute, has to be loaded again,
-- and reading it in the async session raises MissingGreenlet. What is stated of an aggregation is
-- stated of runs in which no such read occurs. The foreign keys of a visit to its events, which the
-- rollback of a lost insert takes away, are not checked either. The foreign key of a video's station is checked for
-- `POST /v1/videos/handle`; an upload's station is taken to exist.
pub mod Common
pub mod Clock
pub mod Event
pub mod Farm
pub mod Files
pub mod Router
pub mod App
pub mod Visit
pub mod Video
pub mod Recognize
pub mod Executor
pub mod Sse
pub mod Mqtt
pub mod Detect
pub mod Edge
pub mod Ingest
mod Tests
